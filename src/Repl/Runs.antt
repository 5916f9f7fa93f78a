-- ===== src/Repl/Runs.antt =====
-- `repl_run` and `oneshot_run` of src/repl.c. The user does not interrupt them.
use termtunnel.Base.{
  none, some, ℕ, List, Bytes, Bool, Result, [], false, fault, ok, ◌>>=◌, ◌>>◌, guard, true,
  out_of_fuel, suc, ◌++◌, ◌∷◌, if◌then◌else◌, leb, ◌==◌, zero, aborted, length, out_of_bounds, take,
  drop, ltb,
}
use termtunnel.Repl.{
  World, recv_data, ClientAction, Code, split, cut_nul, ReadEvent, send, say, proceed, the_end,
  running_tasks, leave, from_le, repl_only,
}
use termtunnel.Repl.Commands.{repl_execve, get_command_flags}
use termtunnel.Command
use termtunnel.Words.{from_le}

-- `get_server_running_task`, behind the packet that asks; the count is a pattern of 32 bits.
unfoldable pub read_running_task : List ReadEvent → Result (ℕ × List ReadEvent)
unfolding recv_data
read_running_task evs = do
  r ← recv_data evs
  guard (r.0.type == Command.return) aborted
  elim r.0.buf [
    | none ↦ fault out_of_bounds
    | some b ↦ if ltb (length b) 4 then fault out_of_bounds else ok (from_le (take 4 b), r.1)
  ]

abbrev ask_count : ClientAction
ask_count = send Command.get_running_task_count []

abbrev is_negative : Code → Bool
is_negative proceed = false
is_negative _ = true

abbrev act_first :
    List ClientAction
    → Result (List ClientAction × List ReadEvent)
    → Result (List ClientAction × List ReadEvent)
act_first actions m = m >>= λ r. ok (actions ++ r.0, r.1)

-- `repl_run` on the lines that `linenoise` returns, on fuel for the lines and the answers; `code` is
-- that of the last command. The actions, and the reads to come.
unfoldable pub repl_loop :
    ℕ
    → World
    → Code
    → Bool
    → List Bytes
    → List ReadEvent
    → Result (List ClientAction × List ReadEvent)
unfolding split repl_execve read_running_task
repl_loop zero w code stopped lines evs = fault out_of_fuel
repl_loop (suc fuel) w code false (line ∷ lines) evs = do
  d ← repl_execve w (split line 20) evs
  r ← repl_loop fuel w d.code (is_negative d.code) lines d.events
  ok (d.actions ++ r.0, r.1)
repl_loop (suc fuel) w leave stopped lines evs = do
  c ← read_running_task evs
  let again = repl_loop fuel w leave false lines c.1
  if c.0 == 0
      then ok (ask_count ∷ send Command.exit_repl [] ∷ [], c.1)
      else act_first (ask_count ∷ say (running_tasks c.0) ∷ []) again
repl_loop (suc fuel) w code stopped lines evs = ok (send Command.exit_repl [] ∷ [], evs)

-- `repl_run`: as many rounds as there are lines, answers and a last one.
unfoldable pub repl_run :
    ℕ → World → List Bytes → List ReadEvent → Result (List ClientAction × List ReadEvent)
unfolding repl_loop
repl_run fuel w lines evs = repl_loop fuel w proceed false lines evs

unfoldable pub read_argv : ℕ → Bytes → Result (List Bytes)
unfolding cut_nul
read_argv zero buf = ok []
read_argv (suc n) buf = do p ← cut_nul buf; words ← read_argv n p.1; ok (p.0 ∷ words)

-- How `oneshot_run` reads the arguments in its buffer.
unfoldable pub read_args : Bytes → Result (List Bytes)
unfolding read_argv
read_args buf = do
  guard (leb 4 (length buf)) out_of_bounds
  read_argv (from_le (take 4 buf)) (drop 4 buf)

-- The wait of `oneshot_run` for the tasks, on fuel for the answers; the user does not interrupt it.
unfoldable pub wait_loop : ℕ → List ReadEvent → Result (List ClientAction × List ReadEvent)
unfolding read_running_task
wait_loop zero evs = fault out_of_fuel
wait_loop (suc fuel) evs = do
  c ← read_running_task evs
  r ← (if c.0 == 0 then ok ([], c.1) else wait_loop fuel c.1)
  ok (ask_count ∷ r.0, r.1)

abbrev the_end_actions : List ClientAction
the_end_actions = say the_end ∷ send Command.exit_repl [] ∷ []

-- `oneshot_run`, behind its first packet.
unfoldable pub oneshot_run :
    ℕ → World → List ReadEvent → Result (List ClientAction × List ReadEvent)
unfolding read_args get_command_flags repl_execve wait_loop recv_data
oneshot_run fuel w evs = do
  r ← recv_data evs
  if r.0.type == Command.get_args_reply
      then elim r.0.buf [
        | none ↦ fault out_of_bounds
        | some buf ↦ read_args buf >>= λ argv. elim argv [
          | [] ↦ fault out_of_bounds
          | name ∷ words ↦
              if get_command_flags name
              then (repl_execve w (name ∷ words) r.1 >>= λ d. wait_loop fuel d.events >>= λ t.
                  ok (send Command.get_args [] ∷ (d.actions ++ (t.0 ++ the_end_actions)), t.1))
              else ok (send Command.get_args [] ∷ say repl_only ∷ the_end_actions, r.1)
        ]
      ]
      else ok (send Command.get_args [] ∷ [], r.1)
