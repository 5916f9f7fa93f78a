-- ===== src/Server/Relay.antt =====
-- What `common_read_tty` of src/pipe.c hands on from the terminal, over all reads.
use termtunnel.Base.{
  ℕ, Result, List, Bytes, ◌≡◌, ◌∷◌, ok, ◌++◌, [], All, length, Result-cases, inl, subst, arith, sym,
  inr, if◌then◌else◌, ap, refl, ◌∙◌, append-nil, Fault, Bool, flatten, fault, >>=-eq-ok, true,
  false, map_ok, ap₂,
}
use termtunnel.Base64.{Base64}
use termtunnel.Server.{
  Server, FsmContext, common_read_tty, tty_reads, handle_all, vnet_part, TtyReply,
  send_tty_to_client,
}
use termtunnel.Server.Reads.{common_read_tty_handles, copy_of, ok_inj, marks_split}
use termtunnel.Server.Marks.{marks, splits, marks-marked, marked, marks-NoMark}
use termtunnel.Server.Tty.{
  IsShort, handle_all-append, vnet_part-append, vnet_part-send_tty_to_client,
}
use termtunnel.Fsm.Output.{with_out, scan_out}
use termtunnel.Fsm.Run.{IsIdle}
use termtunnel.Fsm.Pop.{NoMark}
use termtunnel.Fsm.Stream.{Scanner, scan, scanner_of, scan-append}

-- The frames of a scanned output have been handled, and its unfinished text is kept.
pub record Relayed (codec : Base64) (s : Server) (t : Scanner) (m : Result TtyReply) : Type 0 where
  pub reply : TtyReply
  pub ran : m ≡ ok reply
  pub served : reply.server ≡ (handle_all codec s (marks [] t.out).0).0
  pub income : vnet_part reply.actions ≡ vnet_part (handle_all codec s (marks [] t.out).0).1
  pub idle : IsIdle reply.fsm
  pub scanned : scanner_of reply.fsm ≡ record t { out = (marks [] t.out).1 }
  pub clean : NoMark reply.fsm.output

vnet_part-if :
    (c : Bool) (n : ℕ) (b : Bytes) → vnet_part (if c then [] else send_tty_to_client n b) ≡ []
vnet_part-if true n b = refl
vnet_part-if false n b = vnet_part-send_tty_to_client n b

common_read_tty_relays :
    (codec : Base64) (fsm : FsmContext) (s : Server) (a : ℕ) (x : Bytes) (t : Scanner)
    → IsIdle fsm
    → scan (scanner_of fsm) (a ∷ x) ≡ ok t
    → All IsShort (marks [] t.out).0
    → Relayed codec s t (common_read_tty codec fsm s (a ∷ x))
common_read_tty_relays codec fsm s a x t h e short =
    let r = common_read_tty_handles codec fsm s a x t h e short in
    let done = (handle_all codec s (marks [] t.out).0).1 in
    record {
      reply = r.reply;
      ran = r.ran;
      served = r.served;
      income =
          ap vnet_part r.acts
          ∙ vnet_part-append done (copy_of r.reply.server (a ∷ x))
          ∙ rw (vnet_part-if r.reply.server.sees_agent (length (a ∷ x)) (a ∷ x))
              (append-nil (vnet_part done));
      idle = r.idle;
      scanned = r.scanned;
      clean = r.clean;
    }

pub All-front {κ} :
    {A : Type 0} (P : A → Type κ) (xs ys : List A) → All P (xs ++ ys) → All P xs × All P ys
All-front P [] ys h = (tt, h)
All-front P (x ∷ xs) ys h = let (l, r) = All-front P xs ys h.1 in ((h.0, l), r)

fault_ok : {x : Fault} {y : Scanner} → Path (Result Scanner) (fault x) (ok y) → ⊥
fault_ok e = ground arith

-- What is scanned behind the frames that were taken off.
pub scan_rest :
    (a : Bytes) (u : Scanner) (r bs : Bytes) (t : Scanner)
    → u.out ≡ a ++ r
    → scan u bs ≡ ok t
    → (v : Scanner) × (scan (record u { out = r }) bs ≡ ok v) × (with_out a v ≡ t)
scan_rest a u r bs t w e =
    let w' : with_out a (record u { out = r }) ≡ u = ap (λ o. record u { out = o }) (sym w) in
    let o : map_ok (with_out a) (scan (record u { out = r }) bs) ≡ ok t =
      sym (scan_out a (record u { out = r }) bs) ∙ ap (λ q. scan q bs) w' ∙ e in
    elim (Result-cases (scan (record u { out = r }) bs)) [
      | inl (v, ev) ↦ (v, ev, ok_inj (ap (map_ok (with_out a)) (sym ev) ∙ o))
      | inr (x, ex) ↦ absurd (fault_ok (ap (map_ok (with_out a)) (sym ex) ∙ o))
    ]

abbrev re_out : Bytes → Scanner → Scanner
re_out o v = record v { out = o }

Relayed-join :
    (codec : Base64) (s : Server) (t : Scanner) (fs : List Bytes) (t2 : Scanner) (p : TtyReply)
    → marks [] t.out ≡ (fs ++ (marks [] t2.out).0, (marks [] t2.out).1)
    → with_out (marked fs) t2 ≡ t
    → p.server ≡ (handle_all codec s fs).0
    → vnet_part p.actions ≡ vnet_part (handle_all codec s fs).1
    → (n : Result TtyReply) (q : Relayed codec p.server t2 n) (m : Result TtyReply)
    → m ≡ ok (record q.reply { actions = p.actions ++ q.reply.actions })
    → Relayed codec s t m
Relayed-join codec s t fs t2 p m g s1 i1 n q w e =
    let gs = (marks [] t2.out).0 in
    let done = handle_all-append codec s fs gs in
    record {
      reply = record q.reply { actions = p.actions ++ q.reply.actions };
      ran = e;
      served = q.served ∙ rw (s1, m, done) refl;
      income =
          vnet_part-append p.actions q.reply.actions
          ∙ ap₂ ◌++◌ i1 (q.income ∙ ap (λ v. vnet_part (handle_all codec v gs).1) s1)
          ∙ rw (m, done, vnet_part-append) refl;
      idle = q.idle;
      scanned = q.scanned ∙ ap (re_out (marks [] t2.out).1) g ∙ rw m refl;
      clean = q.clean;
    }

pub empty_read :
    (codec : Base64) (fsm : FsmContext) (s : Server)
    → common_read_tty codec fsm s [] ≡ ok (record { fsm = fsm; server = s; actions = [] })
unfolding common_read_tty
empty_read codec fsm s = refl

pub handle_all-nil : (codec : Base64) (s : Server) → handle_all codec s [] ≡ (s, [])
unfolding handle_all
handle_all-nil codec s = refl

-- From a machine that has read its input and holds no whole frame: if the scanner reads the bytes of
-- all reads without a fault, and the frames in what it keeps are short enough for the buffer, then
-- the reads return, every frame has been handled in order by the server, its network stack got just
-- what these frames carry, and the unfinished text stays in the machine.
pub tty_reads_relay :
    (codec : Base64) (xs : List Bytes) (fsm : FsmContext) (s : Server) (t : Scanner)
    → IsIdle fsm
    → NoMark fsm.output
    → scan (scanner_of fsm) (flatten xs) ≡ ok t
    → All IsShort (marks [] t.out).0
    → Relayed codec s t (tty_reads codec fsm s xs)
unfolding tty_reads scan
tty_reads_relay codec [] fsm s t h n e short =
    let k : scanner_of fsm ≡ t = cc in
    let m = ap (λ u. marks [] u.out) (sym k) ∙ marks-NoMark [] fsm.output n in
    record {
      reply = record { fsm = fsm; server = s; actions = [] };
      ran = refl;
      served = rw (m, handle_all-nil codec s) refl;
      income = rw (m, handle_all-nil codec s) refl;
      idle = h;
      scanned = rw (m, ← k) refl;
      clean = n;
    }
tty_reads_relay codec ([] ∷ xs) fsm s t h n e short =
    let r = tty_reads_relay codec xs fsm s t h n e short in
    record {
      reply = r.reply;
      ran = rw (empty_read codec fsm s, r.ran) refl;
      served = r.served;
      income = r.income;
      idle = r.idle;
      scanned = r.scanned;
      clean = r.clean;
    }
tty_reads_relay codec ((a ∷ x) ∷ xs) fsm s t h n e short =
    let (t1, e1, e2) =
      >>=-eq-ok (scan (scanner_of fsm) (a ∷ x)) (λ u. scan u (flatten xs))
        (sym (scan-append (scanner_of fsm) (a ∷ x) (flatten xs)) ∙ e) in
    let d = splits t1.out in
    let m1 = marks_split t1.out d.frames d.rest d.whole d.frames_clean d.rest_clean in
    let t1' = record t1 { out = d.rest } in
    let (t2, f2, g2) = scan_rest (marked d.frames) t1 d.rest (flatten xs) t d.whole e2 in
    let m : marks [] t.out ≡ (d.frames ++ (marks [] t2.out).0, (marks [] t2.out).1) =
      rw (← g2) (marks-marked d.frames t2.out d.frames_clean) in
    let (short1, short2) =
      All-front IsShort d.frames (marks [] t2.out).0 (subst (λ q. All IsShort q.0) m short) in
    let r1 =
      common_read_tty_relays codec fsm s a x t1 h e1
        (subst (λ q. All IsShort q.0) (sym m1) short1) in
    let k : scanner_of r1.reply.fsm ≡ t1' = r1.scanned ∙ rw m1 refl in
    let r2 =
      tty_reads_relay codec xs r1.reply.fsm r1.reply.server t2 r1.idle r1.clean (rw k f2) short2 in
    Relayed-join codec s t d.frames t2 r1.reply m g2
      (r1.served ∙ ap (λ q. (handle_all codec s q.0).0) m1)
      (r1.income ∙ ap (λ q. vnet_part (handle_all codec s q.0).1) m1)
      (tty_reads codec r1.reply.fsm r1.reply.server xs) r2 (tty_reads codec fsm s ((a ∷ x) ∷ xs))
      (rw (r1.ran, r2.ran) refl)
