-- ===== src/Terminal.antt =====
-- The modes of the user's terminal: `set_stdin_raw` and `restore_stdin` of src/utils.c, which
-- src/repl.c calls, and `agent_set_stdin_noecho` and `agent_restore_stdin` of src/agent.c. Calls of
-- `tcgetattr` and `tcsetattr` succeed.
pub mod Keeps
use termtunnel.Base.{
  ℕ, Bool, if◌then◌else◌, false, List, ◌≡◌, true, ◌+◌, ◌∷◌, ◌==◌, fun_ext, ap, ◌<◌, [], refl,
  Bool-cases, arith, ne→==, ◌++◌, inl, ◌∙◌, inr, subst, sym,
}

-- The flags of a `struct termios` that the code names, and all others.
pub data Flag : Type 0 where
  ignpar istrip inlcr igncr icrnl ixon ixany ixoff : Flag
  isig icanon echo echoe echok echonl opost : Flag
  other_flag : ℕ → Flag

pub record Modes : Type 0 where
  pub flags : Flag → Bool
  pub vmin : ℕ
  pub vtime : ℕ

unfoldable pub raw_flags : (Flag → Bool) → Flag → Bool
raw_flags m ignpar = true
raw_flags m (other_flag n) = m (other_flag n)
raw_flags m _ = false

unfoldable pub raw_modes : Modes → Modes
unfolding raw_flags
raw_modes m = record { flags = raw_flags m.flags; vmin = 1; vtime = 0 }

-- The modes that the agent sets.
unfoldable pub noecho_flags : (Flag → Bool) → Flag → Bool
noecho_flags m ignpar = true
noecho_flags m icanon = false
noecho_flags m echo = false
noecho_flags m opost = false
noecho_flags m f = m f

unfoldable pub noecho_modes : Modes → Modes
unfolding noecho_flags
noecho_modes m = record { flags = noecho_flags m.flags; vmin = 1; vtime = 0 }

-- The terminal, `ttystate_backup`, `_stdin_is_raw`, and the handlers that `atexit` has.
pub record Terminal : Type 0 where
  pub modes : Modes
  pub backup : Modes
  pub is_raw : Bool
  pub handlers : ℕ

unfoldable pub set_stdin_raw : Terminal → Terminal
unfolding raw_modes
set_stdin_raw t =
    let kept = if t.is_raw then t else record t { backup = t.modes; handlers = t.handlers + 1 } in
    record kept { modes = raw_modes t.modes; is_raw = true }

unfoldable pub restore_stdin : Terminal → Terminal
restore_stdin t = record t { modes = t.backup; is_raw = false }

unfoldable pub agent_set_stdin_noecho : Terminal → Terminal
unfolding noecho_modes
agent_set_stdin_noecho t = record t { modes = noecho_modes t.modes; backup = t.modes }

unfoldable pub agent_restore_stdin : Terminal → Terminal
agent_restore_stdin t = record t { modes = t.backup }

-- What `cli_loop` does with the terminal: `interact_run` begins, or a command loop does.
pub data TerminalStep : Type 0 where
  pass_through read_lines : TerminalStep

unfoldable pub terminal_step : Terminal → TerminalStep → Terminal
unfolding set_stdin_raw restore_stdin
terminal_step t pass_through = set_stdin_raw t
terminal_step t read_lines = restore_stdin t

unfoldable pub terminal_steps : Terminal → List TerminalStep → Terminal
unfolding terminal_step
terminal_steps t [] = t
terminal_steps t (s ∷ ss) = terminal_steps (terminal_step t s) ss

-- The handlers run at the end of the process.
unfoldable pub at_exit : Terminal → Terminal
unfolding restore_stdin
at_exit t = if t.handlers == 0 then t else restore_stdin t
