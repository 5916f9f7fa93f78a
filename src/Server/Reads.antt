-- ===== src/Server/Reads.antt =====
-- One read of `common_read_tty` of src/pipe.c.
use termtunnel.Base.{
  ℕ, Result, Bytes, ok, List, ◌≡◌, arith, [], ◌∷◌, All, if◌then◌else◌, ◌++◌, length, ◌<◌,
  Result-cases, ◌+◌, ap, inl, ◌∙◌, append-nil, subst, length-append, sym, refl, inr,
}
use termtunnel.Server.{
  Server, common_read_tty, handle_all, TtyReply, send_tty_to_client, FsmContext, feed, ServerAction,
  pop_loop,
}
use termtunnel.Base64.{Base64}
use termtunnel.Server.Marks.{marks, marked, splits, marks-marked, marks-NoMark}
use termtunnel.Server.Tty.{IsShort, pop_loop_frames}
use termtunnel.Fsm.Stream.{Scanner, scan, scanner_of}
use termtunnel.Fsm.{FsmContext}
use termtunnel.Fsm.Feed.{feed, feed-scan}
use termtunnel.Fsm.Run.{IsIdle}
use termtunnel.Fsm.Pop.{NoMark}

pub ok_inj : {x y : Scanner} → Path (Result Scanner) (ok x) (ok y) → x ≡ y
ok_inj e = cc

-- The plain copy of a read for the client.
abbrev pub copy_of : Server → Bytes → List ServerAction
copy_of s x = if s.sees_agent then [] else send_tty_to_client (length x) x

-- The frames of a scanned output have been handled, in one read, and its unfinished text is kept.
pub record HandledRead (codec : Base64) (s : Server) (x : Bytes) (t : Scanner) (m : Result TtyReply)
    : Type 0 where
  pub reply : TtyReply
  pub ran : m ≡ ok reply
  pub served : reply.server ≡ (handle_all codec s (marks [] t.out).0).0
  pub acts : reply.actions ≡ (handle_all codec s (marks [] t.out).0).1 ++ copy_of reply.server x
  pub idle : IsIdle reply.fsm
  pub scanned : scanner_of reply.fsm ≡ record t { out = (marks [] t.out).1 }
  pub clean : NoMark reply.fsm.output

IsIdle-with_output :
    (c : FsmContext) (fs : List Bytes) (r : Bytes)
    → IsIdle c
    → c.output ≡ marked fs ++ r
    → IsIdle (record c { output = r })
IsIdle-with_output c fs r h e =
    let n : length c.output ≡ length (marked fs) + length r =
      ap length e ∙ length-append (marked fs) r in
    record {
      valid = record {
        processed_le = h.valid.processed_le;
        processed_in = h.valid.processed_in;
        offset_le = h.valid.offset_le;
        input_fits = h.valid.input_fits;
        output_fits = omega (arith, n, h.valid.output_fits);
        output_room = h.valid.output_room;
      };
      read = h.read;
    }

pub marks_split :
    (out : Bytes) (fs : List Bytes) (r : Bytes)
    → out ≡ marked fs ++ r
    → All NoMark fs
    → NoMark r
    → marks [] out ≡ (fs, r)
marks_split out fs r e c n =
    rw (e, marks-marked fs r c, marks-NoMark [] r n) (ap (λ l. (l, r)) (append-nil fs))

read_handled :
    (codec : Base64) (fsm c : FsmContext) (s : Server) (a : ℕ) (x : Bytes)
    → feed fsm (a ∷ x) ≡ ok c
    → IsIdle c
    → All IsShort (marks [] c.output).0
    → HandledRead codec s (a ∷ x) (scanner_of c) (common_read_tty codec fsm s (a ∷ x))
unfolding common_read_tty
read_handled codec fsm c s a x e h short =
    let d = splits c.output in
    let m = marks_split c.output d.frames d.rest d.whole d.frames_clean d.rest_clean in
    let done = handle_all codec s d.frames in
    let few : length d.frames < length c.output + 1 = omega (arith, d.frames_few) in
    let popped : pop_loop (length c.output + 1) codec c s ≡ _ =
      pop_loop_frames (length c.output + 1) codec c s d.frames d.rest few d.whole d.frames_clean
        (subst (λ q. All IsShort q.0) m short) d.rest_clean in
    record {
      reply = record {
        fsm = record c { output = d.rest };
        server = done.0;
        actions = done.1 ++ copy_of done.0 (a ∷ x);
      };
      ran = rw (e, popped) refl;
      served = rw m refl;
      acts = rw m refl;
      idle = IsIdle-with_output c d.frames d.rest h d.whole;
      scanned = rw m refl;
      clean = d.rest_clean;
    }

pub common_read_tty_handles :
    (codec : Base64) (fsm : FsmContext) (s : Server) (a : ℕ) (x : Bytes) (t : Scanner)
    → IsIdle fsm
    → scan (scanner_of fsm) (a ∷ x) ≡ ok t
    → All IsShort (marks [] t.out).0
    → HandledRead codec s (a ∷ x) t (common_read_tty codec fsm s (a ∷ x))
common_read_tty_handles codec fsm s a x t h e short =
    let (same, idle) = feed-scan fsm (a ∷ x) h in
    elim (Result-cases (feed fsm (a ∷ x))) [
      | inl (c, ec) ↦
          let k : scanner_of c ≡ t = cc in
          subst (λ u. HandledRead codec s (a ∷ x) u (common_read_tty codec fsm s (a ∷ x))) k
            (read_handled codec fsm c s a x ec (rw ec at idle)
              (subst (λ u. All IsShort (marks [] u.out).0) (sym k) short))
      | inr (y, ey) ↦ absurd (ground arith)
    ]
