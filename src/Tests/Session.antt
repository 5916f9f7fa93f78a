-- ===== src/Tests/Session.antt =====
-- Whole sessions of the client, the server and the agent.
use termtunnel.Base.{
  ℕ, List, Bytes, false, ◌∷◌, suc, ◌≡◌, ◌%◌, arith, codes, ap, [], ok, ◌==◌, map, not, zero, refl,
  true, ◌&&◌, ◌/◌, append-nil, Bool, ◌++◌, replicate, flatten, length,
}
use termtunnel.Interact.{
  interact_run, Client, Interaction, Turn, ready, typed, none_ready, running, select_interrupted,
  stdout_part, server_part,
}
use termtunnel.Interact.Turns.{text, Output, ping, output_packet, typed_in}
use termtunnel.Interact.Keyboard.{interact_run-passes}
use termtunnel.Interact.Ends.{IsPipe, IsSchedule, pipe_turn}
use termtunnel.Pty.{WaitStatus, Waited, wait_interrupted, wait_child}
use termtunnel.Repl.{ReadEvent, got}
use termtunnel.Packet.Stream.{encode_all}
use termtunnel.Packet.{Reply, read_all, parser_init}
use termtunnel.Server.{ServerAction, serve_all, server_init, TtyReply, tty_reads}
use termtunnel.Tunnel.{tty_part}
use termtunnel.Agent.Start.{AgentStep, agent}
use termtunnel.Utils.{green_encode}
use termtunnel.Cli.{Round}
use termtunnel.Fsm.Green.{NoEsc, quiet}
use termtunnel.Fsm.{csi_zero, fsm_init}
use termtunnel.Tests.Codec.{codec}
use termtunnel.Server.Exit.{WriteTime, later}
use termtunnel.Server.Quiet.{cli_part}
use termtunnel.Tests.Client.{world}
use termtunnel.Cli.Enters.{Entering, cli_loop-agent}
use termtunnel.Server.Greets.{EndsIn}

-- Keys, an interrupt, and a turn that has both keys and output.
abbrev some_turns : List Turn
some_turns =
    ready (typed (codes "l")) false
    ∷ select_interrupted
    ∷ ready (typed (codes "s")) true
    ∷ ready none_ready true
    ∷ []

abbrev some_outputs : List Output
some_outputs = text (codes "ok") ∷ ping ∷ []

abbrev pub new_client : Client
new_client = record { oneshot_mode = false; ping_count = 0 }

-- A pipe that gives one byte with each read.
abbrev pub bytewise : Bytes → List ReadEvent
bytewise [] = []
bytewise (a ∷ r) = got (a ∷ []) ∷ bytewise r

pub bytewise-IsPipe : IsPipe bytewise
bytewise-IsPipe [] = (tt, refl)
bytewise-IsPipe (a ∷ r) = let (g, e) = bytewise-IsPipe r in ((ground arith, g), ap (◌∷◌ a) e)

-- Turns that all find the pipe ready.
abbrev pub pipe_only : ℕ → List Turn
pipe_only zero = []
pipe_only (suc n) = ready none_ready true ∷ pipe_only n

pub pipe_only-IsSchedule : IsSchedule pipe_only
pipe_only-IsSchedule zero = (tt, refl)
pipe_only-IsSchedule (suc n) = let (h, e) = pipe_only-IsSchedule n in ((tt, h), ap suc e)

abbrev one_piece : Bytes → List Bytes
one_piece b = b ∷ []

abbrev incoming : List ReadEvent
incoming = bytewise (encode_all (map output_packet some_outputs))

interact_run-passes_example :
    (r : Interaction) × (interact_run new_client some_turns incoming ≡ ok r)
    × (r.ending ≡ running)
    × (stdout_part r.actions ≡ codes "ok")
    × (q : Reply) × (read_all parser_init (one_piece (encode_all (server_part r.actions))) ≡ ok q)
    × (q.failed ≡ false)
    × (acts : List ServerAction) × (serve_all server_init q.packets ≡ ok (server_init, acts))
    × (tty_part acts ≡ codes "ls")
interact_run-passes_example =
    interact_run-passes some_turns some_outputs new_client incoming server_init one_piece
      ((ground arith, omega arith), (tt, ((ground arith, omega arith), (tt, tt)))) refl
      (omega arith, (tt, tt)) (omega arith) (bytewise-IsPipe _).0 (bytewise-IsPipe _).1
      (λ b. append-nil b)

-- The macros of the C library of Linux.
abbrev linux : WaitStatus
linux = record {
  wifexited = λ s. s % 128 == 0;
  wifsignaled = λ s. not (s % 128 == 0) && not (s % 128 == 127);
  wexitstatus = λ s. s / 256 % 256;
}

abbrev screen : List Bytes
screen = codes "hello " ∷ codes "world!" ∷ []

-- The stack of `send_exit_message` holds another number when its memory is read.
abbrev reused : WriteTime
reused = later 7

abbrev waits : List Waited
waits = wait_interrupted ∷ wait_child 4991 ∷ wait_child 768 ∷ []

-- The agent starts with an argument, behind a line of other text.
abbrev pub prompt : Bytes
prompt = codes "$ tt\n"

abbrev pub all_succeed : AgentStep → Bool
all_succeed s = true

abbrev with_greeting : List Bytes
with_greeting = prompt ∷ (green_encode (codes "ONESHOT!") ++ codes ">") ∷ []

abbrev first_round : Round
first_round = record { turns = []; winsize = replicate 8 0; fuel = 9; world = world; lines = [] }

pub prompt-NoEsc : NoEsc prompt
prompt-NoEsc = ground arith

cli_loop-agent_example :
    (reply : TtyReply) × (tty_reads codec fsm_init server_init with_greeting ≡ ok reply)
    × (reply.server.sees_agent ≡ true)
    × (before behind : List Bytes) × (greeting : Bytes) × (with_greeting
        ≡ before ++ greeting ∷ behind)
    × EndsIn (quiet csi_zero []) true before greeting
    × (n : ℕ) × (suc n ≡ length (cli_part reply.actions))
    × Entering new_client true
        (record first_round { turns = pipe_only n ++ pipe_turn ∷ [] })
        []
        (bytewise (encode_all (cli_part reply.actions) ++ codes "later"))
        (codes "later")
        (flatten before)
        (typed_in (pipe_only n))
unfolding server_init agent green_encode
cli_loop-agent_example =
    cli_loop-agent codec server_init with_greeting all_succeed (codes "rz" ∷ []) prompt (codes ">")
      new_client pipe_only [] first_round [] bytewise (codes "later") refl refl prompt-NoEsc
      (ground arith, tt) (omega arith) pipe_only-IsSchedule bytewise-IsPipe
