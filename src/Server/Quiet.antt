-- ===== src/Server/Quiet.antt =====
-- Reads of the terminal by `common_read_tty` of src/pipe.c that hold no whole frame of an agent.
use termtunnel.Base.{
  ℕ, List, [], Bytes, length, ◌≡◌, ◌∷◌, map, ◌≤◌, flatten, false, true, ◌++◌, arith, sym, subst,
  ◌+◌, refl, ap, All, suc, All-append, if◌then◌else◌, ltb, ◌∙◌, drop, append_assoc, length-drop,
  take, take-append-drop, length-take, Result, ok, zero, ap₂, >>=-eq-ok, append-nil, ◌≢◌,
  Bool-cases, inl, inr,
}
use termtunnel.Server.{
  Server, common_read_tty, tty_reads, handle_all, TtyReply, send_tty_to_client, ServerAction,
  to_cli, vnet_income, to_tty, start_service, resize_pty, file_recv_start, file_send_start,
  portforward_static_start, call_agent_forward, add_notify, bootstrap_args, FsmContext,
}
use termtunnel.Base64.{Base64}
use termtunnel.Server.Marks.{marks, marks-NoMark}
use termtunnel.Server.Reads.{common_read_tty_handles, copy_of, ok_inj}
use termtunnel.Server.Relay.{scan_rest, All-front, handle_all-nil, empty_read}
use termtunnel.Fsm.Stream.{Scanner, scan, scanner_of, scan-append}
use termtunnel.Packet.{Packet}
use termtunnel.Interact.Turns.{Output, texts, pings, output_packet, text, ping, OutputFits}
use termtunnel.Fsm.Pop.{NoMark}
use termtunnel.Fsm.{FsmContext}
use termtunnel.Fsm.Run.{IsIdle}

-- The packets for the client among the actions.
abbrev pub cli_part : List ServerAction → List Packet
cli_part [] = []
cli_part (to_cli n b ∷ more) = record { type = n; payload = b } ∷ cli_part more
cli_part (_ ∷ more) = cli_part more

pub cli_part-append : (xs ys : List ServerAction) → cli_part (xs ++ ys) ≡ cli_part xs ++ cli_part ys
cli_part-append [] ys = refl
cli_part-append (to_cli n b ∷ xs) ys =
    ap (◌∷◌ (record { type = n; payload = b })) (cli_part-append xs ys)
cli_part-append (vnet_income b ∷ xs) ys = cli_part-append xs ys
cli_part-append (to_tty b ∷ xs) ys = cli_part-append xs ys
cli_part-append (add_notify ∷ xs) ys = cli_part-append xs ys
cli_part-append (start_service b ∷ xs) ys = cli_part-append xs ys
cli_part-append (resize_pty b ∷ xs) ys = cli_part-append xs ys
cli_part-append (bootstrap_args ∷ xs) ys = cli_part-append xs ys
cli_part-append (file_recv_start a b ∷ xs) ys = cli_part-append xs ys
cli_part-append (file_send_start a b ∷ xs) ys = cli_part-append xs ys
cli_part-append (portforward_static_start a b c d ∷ xs) ys = cli_part-append xs ys
cli_part-append (call_agent_forward a b c d ∷ xs) ys = cli_part-append xs ys

-- What the plain copies carry, block by block.
pub record Blocks (acts : List ServerAction) (bytes : Bytes) : Type 0 where
  pub outputs : List Output
  pub packets : cli_part acts ≡ map output_packet outputs
  pub whole : texts outputs ≡ bytes
  pub fit : All OutputFits outputs
  pub no_pings : pings outputs ≡ 0

pub Blocks-nil : Blocks [] []
Blocks-nil = record { outputs = []; packets = refl; whole = refl; fit = tt; no_pings = refl }

pub send_tty_to_client-Blocks :
    (fuel : ℕ) (b : Bytes) → length b ≤ fuel → Blocks (send_tty_to_client fuel b) b
unfolding send_tty_to_client
send_tty_to_client-Blocks zero [] h = Blocks-nil
send_tty_to_client-Blocks zero (a ∷ r) h = absurd (omega arith)
send_tty_to_client-Blocks (suc fuel) [] h = Blocks-nil
send_tty_to_client-Blocks (suc fuel) (a ∷ r) h =
    let n = if ltb 512 (length (a ∷ r)) then 512 else length (a ∷ r) in
    let small : (n ≤ 512) × (1 ≤ n) × (n ≤ length (a ∷ r)) = ground arith in
    let d =
      send_tty_to_client-Blocks fuel (drop n (a ∷ r))
        (omega (arith, length-drop n (a ∷ r), small.0, small.1, small.2, h)) in
    record {
      outputs = text (take n (a ∷ r)) ∷ d.outputs;
      packets = ap (◌∷◌ (output_packet (text (take n (a ∷ r))))) d.packets;
      whole = rw d.whole (take-append-drop n (a ∷ r));
      fit = (omega (arith, length-take n (a ∷ r) small.2, small.0), d.fit);
      no_pings = d.no_pings;
    }

texts-append : (xs ys : List Output) → texts (xs ++ ys) ≡ texts xs ++ texts ys
texts-append [] ys = refl
texts-append (text b ∷ xs) ys = ap (λ l. b ++ l) (texts-append xs ys) ∙ sym (append_assoc b _ _)
texts-append (ping ∷ xs) ys = texts-append xs ys

pings-append : (xs ys : List Output) → pings (xs ++ ys) ≡ pings xs + pings ys
pings-append [] ys = omega arith
pings-append (text b ∷ xs) ys = pings-append xs ys
pings-append (ping ∷ xs) ys = omega (arith, pings-append xs ys)

outputs-append :
    (xs ys : List Output)
    → map output_packet (xs ++ ys) ≡ map output_packet xs ++ map output_packet ys
outputs-append [] ys = refl
outputs-append (x ∷ xs) ys = ap (◌∷◌ (output_packet x)) (outputs-append xs ys)

pub Blocks-append :
    {acts more : List ServerAction} {x y : Bytes}
    → Blocks acts x
    → Blocks more y
    → Blocks (acts ++ more) (x ++ y)
Blocks-append d e = record {
  outputs = d.outputs ++ e.outputs;
  packets = rw (cli_part-append, d.packets, e.packets) (sym (outputs-append d.outputs e.outputs));
  whole = rw (texts-append, d.whole, e.whole) refl;
  fit = All-append OutputFits d.outputs e.outputs d.fit e.fit;
  no_pings = omega (arith, pings-append d.outputs e.outputs, d.no_pings, e.no_pings);
}

-- Without an agent, the client gets the bytes of all reads.
abbrev pub copies : Server → List Bytes → List ServerAction
copies s xs = flatten (map (copy_of s) xs)

pub copy_of-Blocks : (s : Server) (x : Bytes) → s.sees_agent ≡ false → Blocks (copy_of s x) x
copy_of-Blocks s x h =
    subst (λ b. Blocks (if b then [] else send_tty_to_client (length x) x) x) (sym h)
      (send_tty_to_client-Blocks (length x) x (omega arith))

pub copies-Blocks :
    (s : Server) (xs : List Bytes) → s.sees_agent ≡ false → Blocks (copies s xs) (flatten xs)
copies-Blocks s [] h = Blocks-nil
copies-Blocks s (x ∷ xs) h = Blocks-append (copy_of-Blocks s x h) (copies-Blocks s xs h)

-- With an agent it gets none.
pub copies_none : (s : Server) (xs : List Bytes) → s.sees_agent ≡ true → cli_part (copies s xs) ≡ []
copies_none s [] h = refl
copies_none s (x ∷ xs) h =
    rw (cli_part-append (copy_of s x) (copies s xs), copies_none s xs h, h) refl

ok_handle_nil :
    (codec : Base64) (s : Server) (o : Bytes)
    → NoMark o
    → handle_all codec s (marks [] o).0 ≡ (s, [])
ok_handle_nil codec s o n = rw (marks-NoMark [] o n) (handle_all-nil codec s)

-- A run of reads without a frame: the server stays as it is, and only copies.
pub record QuietReads (codec : Base64) (s : Server) (xs : List Bytes) (t : Scanner)
    (m : Result TtyReply) : Type 0 where
  pub fsm : FsmContext
  pub ran : m ≡ ok (record { fsm = fsm; server = s; actions = copies s xs })
  pub idle : IsIdle fsm
  pub scanned : scanner_of fsm ≡ t

pub common_read_tty_quiet :
    (codec : Base64) (fsm : FsmContext) (s : Server) (a : ℕ) (x : Bytes) (t : Scanner)
    → IsIdle fsm
    → scan (scanner_of fsm) (a ∷ x) ≡ ok t
    → NoMark t.out
    → (next : FsmContext) × (common_read_tty codec fsm s (a ∷ x)
        ≡ ok (record { fsm = next; server = s; actions = copy_of s (a ∷ x) }))
      × IsIdle next
      × (scanner_of next ≡ t)
common_read_tty_quiet codec fsm s a x t h e n =
    let m = marks-NoMark [] t.out n in
    let r = common_read_tty_handles codec fsm s a x t h e (rw m tt) in
    let none_done = ok_handle_nil codec s t.out n in
    let same : r.reply.server ≡ s = r.served ∙ ap (λ p. p.0) none_done in
    let acts : r.reply.actions ≡ copy_of s (a ∷ x) = r.acts ∙ rw (none_done, same) refl in
    (
      r.reply.fsm,
      r.ran ∙ ap₂ (λ v l. ok (record { fsm = r.reply.fsm; server = v; actions = l })) same acts,
      r.idle,
      r.scanned ∙ rw m refl,
    )

pub copy_none : (s : Server) → copy_of s [] ≡ []
unfolding send_tty_to_client
copy_none s = elim (Bool-cases s.sees_agent) [ inl e ↦ rw e refl | inr e ↦ rw e refl ]

pub tty_reads_quiet :
    (codec : Base64) (xs : List Bytes) (fsm : FsmContext) (s : Server) (t : Scanner)
    → IsIdle fsm
    → scan (scanner_of fsm) (flatten xs) ≡ ok t
    → NoMark t.out
    → QuietReads codec s xs t (tty_reads codec fsm s xs)
unfolding tty_reads scan
tty_reads_quiet codec [] fsm s t h e n = record {
  fsm = fsm;
  ran = refl;
  idle = h;
  scanned = ok_inj e;
}
tty_reads_quiet codec ([] ∷ xs) fsm s t h e n =
    let r = tty_reads_quiet codec xs fsm s t h e n in
    record {
      fsm = r.fsm;
      ran = rw (empty_read codec fsm s, r.ran, copy_none s) refl;
      idle = r.idle;
      scanned = r.scanned;
    }
tty_reads_quiet codec ((a ∷ x) ∷ xs) fsm s t h e n =
    let (t1, e1, e2) =
      >>=-eq-ok (scan (scanner_of fsm) (a ∷ x)) (λ u. scan u (flatten xs))
        (sym (scan-append (scanner_of fsm) (a ∷ x) (flatten xs)) ∙ e) in
    let (t2, f2, g2) = scan_rest t1.out t1 [] (flatten xs) t (sym (append-nil t1.out)) e2 in
    let (n1, n2) =
      All-front (λ b. b ≢ b'!') t1.out t2.out (subst NoMark (sym (ap (λ u. u.out) g2)) n) in
    let (next, ran, idle, scanned) = common_read_tty_quiet codec fsm s a x t1 h e1 n1 in
    let r = tty_reads_quiet codec xs next s t idle (rw scanned e2) n in
    record { fsm = r.fsm; ran = rw (ran, r.ran) refl; idle = r.idle; scanned = r.scanned }
