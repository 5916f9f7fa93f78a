-- ===== src/Pty/Exec.antt =====
-- The child that `pty_run` of src/pty.c forks: `do_exec`. Descriptors are numbers of a table, as POSIX
-- has `close` and `dup2`; the calls for the terminal's size and session change nothing in it.
use termtunnel.Base.{
  ℕ, Option, if◌then◌else◌, suc, List, ◌≤◌, ◌<◌, none, ◌==◌, some, ◌+◌, Bytes, ◌≡◌, ◌-◌, ◌∷◌, arith,
  zero, ◌∙◌, [], refl, ne→==, eq_or_ne, inl, ==_iff, inr, ◌≢◌, ltb, Option-cases, Bool-cases,
  ltb→lt, ltb→le, subst, sym,
}

-- What a descriptor stands for: the terminal of the program, or something else.
pub data Opened : Type 0 where
  slave_side : Opened
  other : ℕ → Opened

abbrev pub Table : Type 0
Table = ℕ → Option Opened

unfoldable pub close : ℕ → Table → Table
close n t fd = if fd == n then none else t fd

-- A copy of what the old descriptor stands for; it must be open.
unfoldable pub copied_to : Option Opened → ℕ → Table → Table
copied_to none new t fd = t fd
copied_to (some o) new t fd = if fd == new then some o else t fd

unfoldable pub dup2 : ℕ → ℕ → Table → Table
unfolding copied_to
dup2 old new t = copied_to (t old) new t

-- The loop that closes `n` descriptors from `i` on.
unfoldable pub close_from : ℕ → ℕ → Table → Table
unfolding close
close_from i zero t = t
close_from i (suc n) t = close_from (i + 1) n (close i t)

-- `struct winsize`, its rows and columns.
pub record Winsize : Type 0 where
  pub rows : ℕ
  pub cols : ℕ

-- The size that the child takes: that of the terminal, or the fallback where the call fails.
unfoldable pub exec_winsize : Option Winsize → Winsize
exec_winsize none = record { rows = 20; cols = 20 }
exec_winsize (some w) = w

-- Where the child ends before, or what it gives to `execvp`.
pub data Child : Type 0 where
  child_exits : ℕ → Child
  executes : Winsize → List Bytes → Table → Child

-- `do_exec` where `open` returns the descriptor `slave`, or fails; `fdlimit` is `_SC_OPEN_MAX`, and
-- `pty_fd` the descriptor of the server's side.
unfoldable pub do_exec : Option Winsize → Option ℕ → ℕ → ℕ → List Bytes → Table → Child
unfolding exec_winsize close dup2 close_from
do_exec size none pty_fd fdlimit argv t = child_exits 1
do_exec size (some slave) pty_fd fdlimit argv t =
    let opened : Table = λ fd. if fd == slave then some slave_side else t fd in
    let bare = close 2 (close 1 (close 0 opened)) in
    let joined = dup2 slave 2 (dup2 slave 1 (dup2 slave 0 bare)) in
    let left = close pty_fd (close slave joined) in
    executes (exec_winsize size) argv (close_from 3 (fdlimit - 3) left)

-- The branch of `pty_run` in the child, with the arguments behind the name of this program: without
-- a command it exits.
unfoldable pub pty_child : Option Winsize → Option ℕ → ℕ → ℕ → List Bytes → Table → Child
unfolding do_exec
pty_child size slave pty_fd fdlimit [] t = child_exits 0
pty_child size slave pty_fd fdlimit (a ∷ r) t = do_exec size slave pty_fd fdlimit (a ∷ r) t

kept_from : (i n : ℕ) (t : Table) (fd : ℕ) → fd < i → close_from i n t fd ≡ t fd
unfolding close_from close
kept_from i zero t fd h = refl
kept_from i (suc n) t fd h =
    kept_from (i + 1) n (close i t) fd (omega (arith, h))
    ∙ rw (ne→== fd i (λ e. absurd (omega arith))) refl

closed_from : (i n : ℕ) (t : Table) (fd : ℕ) → i ≤ fd → fd < i + n → close_from i n t fd ≡ none
unfolding close_from close
closed_from i zero t fd h l = absurd (omega arith)
closed_from i (suc n) t fd h l = elim (eq_or_ne fd i) [
  | inl e ↦ kept_from (i + 1) n (close i t) fd (omega arith) ∙ rw ((==_iff fd i).1 e) refl
  | inr e ↦ closed_from (i + 1) n (close i t) fd (omega arith) (omega arith)
]

close_other : (n : ℕ) (t : Table) (fd : ℕ) → fd ≢ n → close n t fd ≡ t fd
unfolding close
close_other n t fd h = rw (ne→== fd n h) refl

dup2_new : (old new : ℕ) (t : Table) (o : Opened) → t old ≡ some o → dup2 old new t new ≡ some o
unfolding dup2 copied_to
dup2_new old new t o e =
    subst (λ x. copied_to x new t new ≡ some o) (sym e) (rw ((==_iff new new).1 refl) refl)

dup2_other : (old new : ℕ) (t : Table) (fd : ℕ) → fd ≢ new → dup2 old new t fd ≡ t fd
unfolding dup2 copied_to
dup2_other old new t fd h = elim (Option-cases (t old)) [
  | inl e ↦ subst (λ x. copied_to x new t fd ≡ t fd) (sym e) refl
  | inr (o, e) ↦ subst (λ x. copied_to x new t fd ≡ t fd) (sym e) (rw (ne→== fd new h) refl)
]

-- The three descriptors of the program, before the last ones are closed.
joined_open :
    (slave : ℕ) (t : Table) (fd : ℕ)
    → 3 ≤ slave
    → t slave ≡ some slave_side
    → fd < 3
    → dup2 slave 2 (dup2 slave 1 (dup2 slave 0 t)) fd ≡ some slave_side
joined_open slave t fd h e l =
    let j0 = dup2 slave 0 t in
    let j1 = dup2 slave 1 j0 in
    let e0 : j0 slave ≡ some slave_side =
      dup2_other slave 0 t slave (λ k. absurd (omega arith)) ∙ e in
    let e1 : j1 slave ≡ some slave_side =
      dup2_other slave 1 j0 slave (λ k. absurd (omega arith)) ∙ e0 in
    go fd l (dup2_new slave 0 t slave_side e) (dup2_new slave 1 j0 slave_side e0)
      (dup2_new slave 2 j1 slave_side e1)
  where
    go :
        (fd : ℕ)
        → fd < 3
        → dup2 slave 0 t 0 ≡ some slave_side
        → dup2 slave 1 (dup2 slave 0 t) 1 ≡ some slave_side
        → dup2 slave 2 (dup2 slave 1 (dup2 slave 0 t)) 2 ≡ some slave_side
        → dup2 slave 2 (dup2 slave 1 (dup2 slave 0 t)) fd ≡ some slave_side
    go zero l a b c =
        dup2_other slave 2 (dup2 slave 1 (dup2 slave 0 t)) 0 (λ k. absurd (omega arith))
        ∙ dup2_other slave 1 (dup2 slave 0 t) 0 (λ k. absurd (omega arith))
        ∙ a
    go (suc zero) l a b c =
        dup2_other slave 2 (dup2 slave 1 (dup2 slave 0 t)) 1 (λ k. absurd (omega arith)) ∙ b
    go (suc (suc zero)) l a b c = c
    go (suc (suc (suc n))) l a b c = absurd (omega arith)

bare_slave :
    (slave : ℕ) (t : Table)
    → 3 ≤ slave
    → close 2 (close 1 (close 0 (λ n. if n == slave then some slave_side else t n))) slave
      ≡ some slave_side
bare_slave slave t h =
    let opened : Table = λ n. if n == slave then some slave_side else t n in
    close_other 2 (close 1 (close 0 opened)) slave (λ k. absurd (omega arith))
    ∙ close_other 1 (close 0 opened) slave (λ k. absurd (omega arith))
    ∙ close_other 0 opened slave (λ k. absurd (omega arith))
    ∙ rw ((==_iff slave slave).1 refl) refl

-- With a command, where the terminal of the program can be opened, and its two descriptors are not
-- among the standard ones: the child gives the command with all its arguments to `execvp`, and then,
-- of the descriptors below the limit, just 0, 1 and 2 are open, and all three are the terminal.
pub pty_child-executes :
    (size : Option Winsize) (slave pty_fd fdlimit : ℕ) (command : Bytes) (args : List Bytes)
    (t : Table) (fd : ℕ)
    → 3 ≤ slave
    → 3 ≤ pty_fd
    → fd < fdlimit
    → (left : Table) × (pty_child size (some slave) pty_fd fdlimit (command ∷ args) t
        ≡ executes (exec_winsize size) (command ∷ args) left)
      × (left fd ≡ (if ltb fd 3 then some slave_side else none))
unfolding pty_child do_exec
pty_child-executes size slave pty_fd fdlimit command args t fd h k l =
    let opened : Table = λ n. if n == slave then some slave_side else t n in
    let bare = close 2 (close 1 (close 0 opened)) in
    let joined = dup2 slave 2 (dup2 slave 1 (dup2 slave 0 bare)) in
    let left = close pty_fd (close slave joined) in
    (
      close_from 3 (fdlimit - 3) left,
      refl,
      elim (Bool-cases (ltb fd 3)) [
        | inl e ↦
            let low = ltb→lt fd 3 e in
            kept_from 3 (fdlimit - 3) left fd low
            ∙ close_other pty_fd (close slave joined) fd (λ x. absurd (omega (arith, low)))
            ∙ close_other slave joined fd (λ x. absurd (omega (arith, low)))
            ∙ joined_open slave bare fd h (bare_slave slave t h) low
            ∙ rw e refl
        | inr e ↦
            let high = ltb→le fd 3 e in
            closed_from 3 (fdlimit - 3) left fd high (omega (arith, high)) ∙ rw e refl
      ],
    )
