-- ===== src/Cli.antt =====
-- The client's process, src/entry.c: `cli_loop`, which goes back and forth between the terminal of
-- the program and the commands of the user, and `on_resize`. `malloc` succeeds, and the signal that
-- the process sends itself is handled before `kill` returns.
pub mod Enters
pub mod Leaves
pub mod Visit
pub mod Oneshot
pub mod Start
use termtunnel.Base.{ℕ, List, Bytes, Bool, Result, ok, true, ◌>>=◌, false, map, ◌∷◌, ◌++◌, []}
use termtunnel.Interact.{interact_run, Written, Ending, Interaction, Client, Turn, entered, running}
use termtunnel.Repl.Runs.{repl_run, oneshot_run}
use termtunnel.Command
use termtunnel.Repl.{ClientAction, send, ReadEvent, World}

-- What the client does: in `interact_run`, and in its commands.
pub data CliAction : Type 0 where
  shown : Written → CliAction
  did : ClientAction → CliAction

-- One round of the loop as its surroundings have it: the turns of `interact_run`, the bytes of the
-- `struct winsize` of the terminal, and what the commands get.
pub record Round : Type 0 where
  pub turns : List Turn
  pub winsize : Bytes
  pub fuel : ℕ
  pub world : World
  pub lines : List Bytes

-- `on_resize` where the calls for the size of the terminal succeed.
unfoldable pub on_resize : Bytes → CliAction
on_resize winsize = did (send Command.tty_win_resize winsize)

-- The commands of a round: of the user, or the one that the agent was started with.
unfoldable pub run_commands :
    Bool → Round → List ReadEvent → Result (List ClientAction × List ReadEvent)
unfolding repl_run oneshot_run
run_commands true d evs = oneshot_run d.fuel d.world evs
run_commands false d evs = repl_run d.fuel d.world d.lines evs

pub record CliRun : Type 0 where
  pub ending : Ending
  pub client : Client
  pub actions : List CliAction
  pub events : List ReadEvent

-- Behind `interact_run`: its end ends the loop, except by `COMMAND_ENTER_REPL`.
abbrev pub cli_commands :
    Round → Interaction → (Client → List ReadEvent → Result CliRun) → Result CliRun
cli_commands d i next = elim i.ending [
  | entered ↦
      (run_commands i.client.oneshot_mode d i.events >>= λ r. next i.client r.1 >>= λ n.
      ok (record n {
        actions =
            map shown i.actions
            ++ (on_resize d.winsize ∷ (map did r.0 ++ (on_resize d.winsize ∷ n.actions)));
      }))
  | ending ↦ ok (record {
    ending = ending;
    client = i.client;
    actions = map shown i.actions;
    events = i.events;
  })
]

-- `cli_loop` in these rounds.
unfoldable pub cli_loop : Client → List Round → List ReadEvent → Result CliRun
unfolding interact_run run_commands on_resize
cli_loop c [] evs = ok (record { ending = running; client = c; actions = []; events = evs })
cli_loop c (d ∷ ds) evs =
    interact_run c d.turns evs >>= λ i. cli_commands d i (λ c' more. cli_loop c' ds more)
