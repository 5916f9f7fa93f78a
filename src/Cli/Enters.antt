-- ===== src/Cli/Enters.antt =====
-- From the start of the agent, `agent` of src/agent.c, through the terminal and the server to the
-- client's `cli_loop` of src/entry.c.
use termtunnel.Base.{
  ℕ, Bool, List, Bytes, ◌≡◌, [], ◌++◌, ◌∷◌, ok, if◌then◌else◌, ◌>>=◌, codes, map, append-nil, refl,
  arith, ap, All, sym, false, ◌∙◌, flatten, length, ◌<◌, ◌^◌, true, subst, append_assoc, suc,
  length-append, length-map,
}
use termtunnel.Base64.{Base64}
use termtunnel.Cli.{
  cli_loop, Round, Client, ReadEvent, Written, run_commands, shown, on_resize, did, Turn,
}
use termtunnel.Agent.Start.{agent, has_arguments, AgentStep}
use termtunnel.Server.Greets.{tty_reads_greets, hello, enter_packet, EndsIn}
use termtunnel.Interact.Ends.{
  interact_enters, IsPipe, IsSchedule, pipe_turn, session_stream, after_all_same,
}
use termtunnel.Fsm.Green.{scan_shown, NoEsc, quiet, noise, coded}
use termtunnel.Server.Marks.{marks}
use termtunnel.Interact.{Client, Written, stdout_part, server_part, Turn}
use termtunnel.Repl.{ReadEvent}
use termtunnel.Fsm.Stream.{Scanner, scan}
use termtunnel.Repl.Recv.{stream, IsRead}
use termtunnel.Fsm.{csi_zero, fsm_init}
use termtunnel.Interact.Turns.{
  typed_packets, Output, IsTurn, pipe_turns, OutputFits, pings, output_packet, texts, typed_in,
  after_all,
}
use termtunnel.Interact.Goes.{interact_run-Goes, put}
use termtunnel.Utils.{green_encode}
use termtunnel.Server.{Server, TtyReply, tty_reads}
use termtunnel.Packet.Stream.{encode_all, encode}
use termtunnel.Server.Quiet.{cli_part}
use termtunnel.Fsm.Feed.{fsm_init-IsIdle}
use termtunnel.Packet.{Packet}

-- The greeting in what the terminal shows.
greeting_scanned :
    (succeeds : AgentStep → Bool) (argv : List Bytes) (b1 b2 : Bytes)
    → NoEsc b1
    → NoEsc b2
    → (t : Scanner) × (scan (quiet csi_zero []) (b1 ++ ((agent succeeds argv).greeting ++ b2))
        ≡ ok t)
      × (marks [] t.out ≡ (hello (has_arguments argv) ∷ [], []))
unfolding agent marks
greeting_scanned succeeds argv b1 b2 h1 h2 =
    let word = if has_arguments argv then codes "ONESHOT!" else codes "MAGIC!" in
    let (csi, e) =
      scan_shown csi_zero [] (noise b1 ∷ coded word ∷ noise b2 ∷ [])
        (h1, (word_NoEsc argv, (h2, tt))) in
    (
      quiet csi (word ++ []),
      ap (λ l. scan (quiet csi_zero []) (b1 ++ (green_encode word ++ l))) (sym (append-nil b2)) ∙ e,
      word_marks argv,
    )
  where
    word_NoEsc :
        (argv : List Bytes)
        → NoEsc (if has_arguments argv then codes "ONESHOT!" else codes "MAGIC!")
    word_NoEsc [] = ground arith
    word_NoEsc (a ∷ r) = ground arith

    word_marks :
        (argv : List Bytes)
        → marks [] ((if has_arguments argv then codes "ONESHOT!" else codes "MAGIC!") ++ [])
          ≡ (hello (has_arguments argv) ∷ [], [])
    word_marks [] = refl
    word_marks (a ∷ r) = refl

-- What the client has done when it goes to its commands.
pub record Entering (c : Client) (oneshot : Bool) (d : Round) (ds : List Round)
    (evs : List ReadEvent) (later : Bytes) (out : Bytes) (keys : List Bytes) : Type 0 where
  pub actions : List Written
  pub more : List ReadEvent
  pub left : stream more ≡ later
  pub good : All IsRead more
  pub shown_there : stdout_part actions ≡ out
  pub sent : server_part actions ≡ typed_packets keys
  pub ran : cli_loop c (d ∷ ds) evs ≡ (
      run_commands oneshot d more >>= λ r.
      cli_loop (record c { oneshot_mode = oneshot }) ds r.1 >>= λ n. ok (record n {
        actions =
            map shown actions
            ++ (on_resize d.winsize ∷ (map did r.0 ++ (on_resize d.winsize ∷ n.actions)));
      }))

abbrev in_mode : Bool → Client → Client
in_mode oneshot c = record c { oneshot_mode = oneshot }

pub cli_loop-Entering :
    (c : Client) (oneshot : Bool) (d : Round) (ds : List Round) (evs : List ReadEvent)
    (later : Bytes) (ts us : List Turn) (os : List Output)
    → All IsTurn ts
    → pipe_turns ts ≡ length os
    → All OutputFits os
    → pings os ≡ 0
    → c.ping_count < 2 ^ 63
    → All IsRead evs
    → stream evs ≡ encode_all (map output_packet os ++ enter_packet oneshot ∷ []) ++ later
    → Entering c oneshot
        (record d { turns = ts ++ pipe_turn ∷ us })
        ds
        evs
        later
        (texts os)
        (typed_in ts)
unfolding cli_loop
cli_loop-Entering c oneshot d ds evs later ts us os h n f p small g e =
    let line : stream evs
        ≡ encode_all (map output_packet os) ++ (encode (enter_packet oneshot) ++ later) =
      e
      ∙ ap (λ l. l ++ later) (session_stream os (enter_packet oneshot))
      ∙ append_assoc (encode_all (map output_packet os)) (encode (enter_packet oneshot) ++ []) later
      ∙ ap (λ l. encode_all (map output_packet os) ++ (l ++ later))
          (append-nil (encode (enter_packet oneshot))) in
    let go =
      interact_run-Goes ts (pipe_turn ∷ us) os c evs (encode (enter_packet oneshot) ++ later) h n f
        (omega (arith, p, small)) g line in
    let (more, ran, left, good) =
      interact_enters (after_all c os) oneshot us go.more later go.good go.left in
    let same = ap (in_mode oneshot) (after_all_same c os p) in
    let whole = go.ran ∙ ap (put go.actions) ran in
    record {
      actions = go.actions ++ [];
      more = more;
      left = left;
      good = good;
      shown_there = ap stdout_part (append-nil go.actions) ∙ go.shown;
      sent = ap server_part (append-nil go.actions) ∙ go.sent;
      ran = rw (whole, same) refl;
    }

one_packet_more :
    (os : List Output) (p : Packet) (ps : List Packet)
    → ps ≡ map output_packet os ++ p ∷ []
    → suc (length os) ≡ length ps
one_packet_more os p ps e =
    omega (
      arith,
      ap length e,
      length-append (map output_packet os) (p ∷ []),
      length-map output_packet os,
    )

-- Let the terminal show the greeting of an agent that starts, with other text without escape bytes
-- around it, cut into reads in any way; the server has seen no agent before, and the client's
-- count of pings is in its range. The reads return, and the server sees the agent. In any turns
-- between which the client finds the pipe ready as often as needed, `cli_loop` first shows exactly
-- what came with the reads before that in which the greeting ends (before it the scan finds no
-- frame, with it the one of the greeting), and sends all keys that are
-- typed meanwhile. Then it tells the size of its window and goes to its commands: to `oneshot_run`
-- if the agent was started with arguments, and else to `repl_run`, with just the packets that
-- follow. Behind them it tells the size again, and passes the terminal through in the next round.
pub cli_loop-agent :
    (codec : Base64) (s : Server) (xs : List Bytes) (succeeds : AgentStep → Bool)
    (argv : List Bytes) (b1 b2 : Bytes) (c : Client) (turns : ℕ → List Turn) (us : List Turn)
    (d : Round) (ds : List Round) (pipe : Bytes → List ReadEvent) (later : Bytes)
    → s.sees_agent ≡ false
    → flatten xs ≡ b1 ++ ((agent succeeds argv).greeting ++ b2)
    → NoEsc b1
    → NoEsc b2
    → c.ping_count < 2 ^ 63
    → IsSchedule turns
    → IsPipe pipe
    → (reply : TtyReply) × (tty_reads codec fsm_init s xs ≡ ok reply)
      × (reply.server.sees_agent ≡ true)
      × (before behind : List Bytes) × (greeting : Bytes) × (xs ≡ before ++ greeting ∷ behind)
      × EndsIn (quiet csi_zero []) (has_arguments argv) before greeting
      × (n : ℕ) × (suc n ≡ length (cli_part reply.actions))
      × Entering c
          (has_arguments argv)
          (record d { turns = turns n ++ pipe_turn ∷ us })
          ds
          (pipe (encode_all (cli_part reply.actions) ++ later))
          later
          (flatten before)
          (typed_in (turns n))
unfolding fsm_init
cli_loop-agent codec s xs succeeds argv b1 b2 c turns us d ds pipe later blind e h1 h2 small sched
      ip =
    let (t, scanned, m) = greeting_scanned succeeds argv b1 b2 h1 h2 in
    let g =
      tty_reads_greets codec xs fsm_init s (has_arguments argv) t [] fsm_init-IsIdle tt blind
        (ap (scan (quiet csi_zero [])) e ∙ scanned) m in
    let b = g.blocks in
    let bytes = encode_all (cli_part g.reply.actions) ++ later in
    let n = length b.outputs in
    let line : stream (pipe bytes)
        ≡ encode_all (map output_packet b.outputs ++ enter_packet (has_arguments argv) ∷ [])
          ++ later =
      (ip bytes).1
      ∙ ap (λ l. encode_all l ++ later) g.packets
      ∙ ap (λ l. encode_all (l ++ enter_packet (has_arguments argv) ∷ []) ++ later) b.packets in
    let counted : suc n ≡ length (cli_part g.reply.actions) =
      one_packet_more b.outputs (enter_packet (has_arguments argv)) (cli_part g.reply.actions)
        (g.packets ∙ ap (λ l. l ++ enter_packet (has_arguments argv) ∷ []) b.packets) in
    let entering =
      cli_loop-Entering c (has_arguments argv) d ds (pipe bytes) later (turns n) us b.outputs
        (sched n).0 (sched n).1 b.fit b.no_pings small (ip bytes).0 line in
    (
      g.reply,
      g.ran,
      g.sees,
      g.before,
      g.behind,
      g.greeting,
      g.cut,
      g.ends,
      n,
      counted,
      subst
          (λ o.
            Entering c (has_arguments argv) (record d { turns = turns n ++ pipe_turn ∷ us }) ds
              (pipe bytes) later o (typed_in (turns n)))
          b.whole entering,
    )
