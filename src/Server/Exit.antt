-- ===== src/Server/Exit.antt =====
-- The end of the server, src/pipe.c: the watcher of the program hands its exit code to the event
-- loop. `send_exit_message` gives `uv_write` the address of a variable of its own: if the write does
-- not take place before it returns, the four bytes are what is then found in that place.
use termtunnel.Base.{
  ℕ, Option, none, some, List, Bool, false, [], if◌then◌else◌, true, Result, ◌∷◌, ◌>>=◌, ok,
}
use termtunnel.Server.{ServerAction, to_cli, le_bytes}
use termtunnel.Income.{Income, timer_callback}
use termtunnel.Command
use termtunnel.Pty.{do_waitpid, WaitStatus, Waited}
use termtunnel.Words.{le_bytes}

-- `async_process_exit`: its data, once it has been sent; and `exiting`.
pub record ExitState : Type 0 where
  pub process_exit : Option ℕ
  pub exiting : Bool

unfoldable pub exit_init : ExitState
exit_init = record { process_exit = none; exiting = false }

-- Called by `do_waitpid_wrap` of src/pty.c with the result of `do_waitpid`.
unfoldable pub pty_process_on_exit : ExitState → ℕ → ExitState
pty_process_on_exit s exitcode = record s { process_exit = some exitcode }

-- When `uv_write` reads the four bytes: at once, or later, when the place holds this number.
pub data WriteTime : Type 0 where
  at_once : WriteTime
  later : ℕ → WriteTime

abbrev pub read_at : WriteTime → ℕ → ℕ
read_at at_once exitcode = exitcode
read_at (later n) exitcode = n

-- The callback of `async_process_exit`; it runs only after `uv_async_send`.
unfoldable pub send_exit_message : WriteTime → ExitState → ExitState × List ServerAction
send_exit_message time s = elim s.process_exit [
  | none ↦ (s, [])
  | some exitcode ↦ (
    record s { exiting = true },
    to_cli Command.cmd_exit (le_bytes 4 (read_at time exitcode)) ∷ [],
  )
]

-- `timer_callback`: it reminds of the queue, and ends the process, which is `none`, once `exiting` is
-- set.
unfoldable pub server_timer : ExitState → Income → Option Income
unfolding timer_callback
server_timer s q = if s.exiting then none else some (timer_callback q)

-- `do_waitpid_wrap` with the callback of the server, on what the calls of `waitpid` return.
unfoldable pub do_waitpid_wrap : WaitStatus → ExitState → List Waited → Result ExitState
unfolding do_waitpid pty_process_on_exit
do_waitpid_wrap w s ws = do_waitpid w ws >>= λ exitcode. ok (pty_process_on_exit s exitcode)
