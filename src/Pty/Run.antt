-- ===== src/Pty/Run.antt =====
-- The parent's side of `pty_run` of src/pty.c: what it opens, allocates and gives back.
use termtunnel.Base.{ℕ, Bool, List, ◌∷◌, if◌then◌else◌, true, ◌≡◌, [], not, false, ◌+◌, refl, ◌≢◌}

-- The calls that may fail, by whether they succeed.
pub record Calls : Type 0 where
  pub open_ptmx : Bool
  pub grantpt : Bool
  pub unlockpt : Bool
  pub malloc_name : Bool
  pub ptsname_r : Bool
  pub fork : Bool
  pub malloc_arg : Bool
  pub pthread_create : Bool

-- What is held: the descriptor, the buffer of the name, the argument of the thread, the thread, and
-- the child that `fork` has made.
pub data Resource : Type 0 where
  terminal_fd slave_name thread_arg watcher child : Resource

pub data Step : Type 0 where
  takes gives_back : Resource → Step

-- `exit(EXIT_FAILURE)`, -1, or the descriptor.
pub data RunEnd : Type 0 where
  run_exits returns_error returns_fd : RunEnd

-- The two ways out that give all back.
abbrev abandon : List Step
abandon = gives_back slave_name ∷ gives_back terminal_fd ∷ []

-- Behind `fork`, in the parent.
unfoldable pub start_watcher : Calls → List Step × RunEnd
start_watcher c =
    if not c.malloc_arg
    then (abandon, returns_error)
    else if not c.pthread_create
    then (takes thread_arg ∷ gives_back thread_arg ∷ abandon, returns_error)
    else (takes thread_arg ∷ takes watcher ∷ gives_back slave_name ∷ [], returns_fd)

-- Of the parent; the result of `fork` is tested only for 0, so it goes on where `fork` fails.
unfoldable pub pty_run : Calls → List Step × RunEnd
unfolding start_watcher
pty_run c =
    let watched = start_watcher c in
    if not c.open_ptmx
    then ([], run_exits)
    else if not c.grantpt
    then (takes terminal_fd ∷ [], run_exits)
    else if not c.unlockpt
    then (takes terminal_fd ∷ [], run_exits)
    else if not c.malloc_name
    then (takes terminal_fd ∷ [], run_exits)
    else if not c.ptsname_r
    then (takes terminal_fd ∷ takes slave_name ∷ gives_back slave_name ∷ [], run_exits)
    else (
      takes terminal_fd
          ∷ takes slave_name
          ∷ (if c.fork then takes child ∷ watched.0 else watched.0),
      watched.1,
    )

abbrev pub is_same : Resource → Resource → Bool
is_same terminal_fd terminal_fd = true
is_same slave_name slave_name = true
is_same thread_arg thread_arg = true
is_same watcher watcher = true
is_same child child = true
is_same _ _ = false

-- How often a resource was taken, and given back.
abbrev pub taken_of : Resource → List Step → ℕ
taken_of r [] = 0
taken_of r (takes q ∷ ss) = (if is_same q r then 1 else 0) + taken_of r ss
taken_of r (gives_back q ∷ ss) = taken_of r ss

abbrev pub returned_of : Resource → List Step → ℕ
returned_of r [] = 0
returned_of r (gives_back q ∷ ss) = (if is_same q r then 1 else 0) + returned_of r ss
returned_of r (takes q ∷ ss) = returned_of r ss

-- What is left over: a child that was made, and with the descriptor the terminal, the thread and its
-- argument.
abbrev pub left_over : Calls → RunEnd → Resource → ℕ
left_over c e child = if c.fork then 1 else 0
left_over c returns_fd slave_name = 0
left_over c returns_fd r = 1
left_over c returns_error r = 0
left_over c run_exits r = 0

-- All that was taken has been given back, but what is left over.
abbrev pub IsSettled : Calls → Resource → Type 0
IsSettled c r = taken_of r (pty_run c).0 ≡ returned_of r (pty_run c).0 + left_over c (pty_run c).1 r

abbrev calls_of : Bool → Bool → Bool → Bool → Bool → Bool → Bool → Bool → Calls
calls_of a b c d e k f g = record {
  open_ptmx = a;
  grantpt = b;
  unlockpt = c;
  malloc_name = d;
  ptsname_r = e;
  fork = k;
  malloc_arg = f;
  pthread_create = g;
}

settles :
    (a b c d e k f g : Bool) (r : Resource)
    → (pty_run (calls_of a b c d e k f g)).1 ≢ run_exits
    → IsSettled (calls_of a b c d e k f g) r
unfolding pty_run start_watcher
settles false b c d e k f g r h = absurd (h refl)
settles true false c d e k f g r h = absurd (h refl)
settles true true false d e k f g r h = absurd (h refl)
settles true true true false e k f g r h = absurd (h refl)
settles true true true true false k f g r h = absurd (h refl)
settles true true true true true false false g terminal_fd h = refl
settles true true true true true false false g slave_name h = refl
settles true true true true true false false g thread_arg h = refl
settles true true true true true false false g watcher h = refl
settles true true true true true false false g child h = refl
settles true true true true true false true false terminal_fd h = refl
settles true true true true true false true false slave_name h = refl
settles true true true true true false true false thread_arg h = refl
settles true true true true true false true false watcher h = refl
settles true true true true true false true false child h = refl
settles true true true true true false true true terminal_fd h = refl
settles true true true true true false true true slave_name h = refl
settles true true true true true false true true thread_arg h = refl
settles true true true true true false true true watcher h = refl
settles true true true true true false true true child h = refl
settles true true true true true true false g terminal_fd h = refl
settles true true true true true true false g slave_name h = refl
settles true true true true true true false g thread_arg h = refl
settles true true true true true true false g watcher h = refl
settles true true true true true true false g child h = refl
settles true true true true true true true false terminal_fd h = refl
settles true true true true true true true false slave_name h = refl
settles true true true true true true true false thread_arg h = refl
settles true true true true true true true false watcher h = refl
settles true true true true true true true false child h = refl
settles true true true true true true true true terminal_fd h = refl
settles true true true true true true true true slave_name h = refl
settles true true true true true true true true thread_arg h = refl
settles true true true true true true true true watcher h = refl
settles true true true true true true true true child h = refl

-- Whichever calls fail, if `pty_run` returns: each resource was given back as often as it was taken,
-- except that with the descriptor the caller gets the terminal and a thread that waits for the
-- program, with its argument. A child that `fork` has made is left over in any case: with -1 no thread waits
-- for it.
pub pty_run-IsSettled : (c : Calls) (r : Resource) → (pty_run c).1 ≢ run_exits → IsSettled c r
pty_run-IsSettled c r h =
    settles c.open_ptmx c.grantpt c.unlockpt c.malloc_name c.ptsname_r c.fork c.malloc_arg
      c.pthread_create r h
