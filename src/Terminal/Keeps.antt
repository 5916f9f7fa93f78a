-- ===== src/Terminal/Keeps.antt =====
-- The modes of the client's terminal over the steps of `cli_loop` of src/entry.c.
use termtunnel.Base.{
  ◌≡◌, ap, Bool-cases, false, List, ne→==, if◌then◌else◌, Bool, inl, arith, ◌∷◌, ◌<◌, ◌++◌, inr, [],
  refl, fun_ext, ◌∙◌, subst, sym,
}
use termtunnel.Terminal.{
  Terminal, Modes, raw_flags, raw_modes, TerminalStep, set_stdin_raw, restore_stdin, terminal_step,
  terminal_steps, at_exit, Flag, pass_through, read_lines, other_flag, ignpar, istrip, inlcr, igncr,
  icrnl, ixon, ixany, ixoff, isig, icanon, echo, echoe, echok, echonl, opost,
}

raw_flags-raw_flags : (m : Flag → Bool) → raw_flags (raw_flags m) ≡ raw_flags m
unfolding raw_flags
raw_flags-raw_flags m = fun_ext (λ f. go f)
  where
    go : (f : Flag) → raw_flags (raw_flags m) f ≡ raw_flags m f
    go ignpar = refl
    go istrip = refl
    go inlcr = refl
    go igncr = refl
    go icrnl = refl
    go ixon = refl
    go ixany = refl
    go ixoff = refl
    go isig = refl
    go icanon = refl
    go echo = refl
    go echoe = refl
    go echok = refl
    go echonl = refl
    go opost = refl
    go (other_flag n) = refl

raw_modes-raw_modes : (m : Modes) → raw_modes (raw_modes m) ≡ raw_modes m
unfolding raw_modes
raw_modes-raw_modes m =
    ap (λ f. record { flags = f; vmin = 1; vtime = 0 }) (raw_flags-raw_flags m.flags)

-- The modes that a step leaves.
abbrev pub modes_after : Modes → TerminalStep → Modes
modes_after m pass_through = raw_modes m
modes_after m read_lines = m

-- The modes of the start are kept, and the terminal has those or the raw ones.
record Keeps (m : Modes) (t : Terminal) : Type 0 where
  saved : t.backup ≡ m
  set : t.modes ≡ (if t.is_raw then raw_modes m else m)
  handled : 0 < t.handlers

Keeps-raw : (m : Modes) (t : Terminal) → Keeps m t → Keeps m (set_stdin_raw t)
unfolding set_stdin_raw
Keeps-raw m t k = elim (Bool-cases t.is_raw) [
  | inl e ↦ record {
    saved = rw e k.saved;
    set = rw (k.set, e) (raw_modes-raw_modes m);
    handled = rw e k.handled;
  }
  | inr e ↦ record {
    saved = rw (e, k.set, e) refl;
    set = rw (k.set, e) refl;
    handled = rw e (omega (arith, k.handled));
  }
]

Keeps-restore : (m : Modes) (t : Terminal) → Keeps m t → Keeps m (restore_stdin t)
unfolding restore_stdin
Keeps-restore m t k = record { saved = k.saved; set = k.saved; handled = k.handled }

Keeps-step : (m : Modes) (t : Terminal) (s : TerminalStep) → Keeps m t → Keeps m (terminal_step t s)
unfolding terminal_step
Keeps-step m t pass_through k = Keeps-raw m t k
Keeps-step m t read_lines k = Keeps-restore m t k

first_raw : (t : Terminal) → t.is_raw ≡ false → Keeps t.modes (terminal_step t pass_through)
unfolding terminal_step set_stdin_raw
first_raw t e = record { saved = rw e refl; set = refl; handled = rw e (omega arith) }

Keeps-steps :
    (m : Modes) (ss : List TerminalStep) (t : Terminal) → Keeps m t → Keeps m (terminal_steps t ss)
unfolding terminal_steps
Keeps-steps m [] t k = k
Keeps-steps m (s ∷ ss) t k = Keeps-steps m ss (terminal_step t s) (Keeps-step m t s k)

last_step :
    (m : Modes) (t : Terminal) (s : TerminalStep)
    → Keeps m t
    → (terminal_step t s).modes ≡ modes_after m s
unfolding terminal_step set_stdin_raw restore_stdin
last_step m t pass_through k = elim (Bool-cases t.is_raw) [
  | inl e ↦ rw (k.set, e) (raw_modes-raw_modes m)
  | inr e ↦ rw (k.set, e) refl
]
last_step m t read_lines k = k.saved

exit_restores : (m : Modes) (t : Terminal) → Keeps m t → (at_exit t).modes ≡ m
unfolding at_exit restore_stdin
exit_restores m t k = rw (ne→== t.handlers 0 (λ e. absurd (omega (arith, k.handled)))) k.saved

terminal_steps-append :
    (ss : List TerminalStep) (t : Terminal) (s : TerminalStep)
    → terminal_steps t (ss ++ s ∷ []) ≡ terminal_step (terminal_steps t ss) s
unfolding terminal_steps
terminal_steps-append [] t s = refl
terminal_steps-append (q ∷ ss) t s = terminal_steps-append ss (terminal_step t q) s

-- The client starts with a terminal that is not raw, and first passes it through, as `cli_loop` does.
-- However often it then goes to lines and back, also twice in a row: behind each step the terminal
-- has the raw modes or those of the start, as the step wants, and whenever the process exits, it
-- has those of the start again.
pub terminal_steps-modes_after :
    (t : Terminal) (ss : List TerminalStep) (s : TerminalStep)
    → t.is_raw ≡ false
    → ((terminal_steps t (pass_through ∷ (ss ++ s ∷ []))).modes ≡ modes_after t.modes s)
      × ((at_exit (terminal_steps t (pass_through ∷ (ss ++ s ∷ [])))).modes ≡ t.modes)
unfolding terminal_steps
terminal_steps-modes_after t ss s e =
    let first = terminal_step t pass_through in
    let k = Keeps-steps t.modes ss first (first_raw t e) in
    let same = terminal_steps-append ss first s in
    (
      ap (λ u. u.modes) same ∙ last_step t.modes (terminal_steps first ss) s k,
      exit_restores t.modes (terminal_steps first (ss ++ s ∷ []))
          (subst (Keeps t.modes) (sym same) (Keeps-step t.modes (terminal_steps first ss) s k)),
    )
