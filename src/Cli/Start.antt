-- ===== src/Cli/Start.antt =====
-- `main` of src/entry.c: which process is which. `atoi` is a parameter, its result a pattern of 32
-- bits.
use termtunnel.Base.{
  ℕ, Bytes, List, Bool, Option, bytes_eq, if◌then◌else◌, ◌∷◌, some, codes, [], leb, ◌||◌, ◌^◌, ltb,
  none,
}
use termtunnel.Setup.{until_failure}

-- The level of the log that `TERMTUNNEL_VERBOSE` sets; without it there is no log.
unfoldable pub verbose_level : (Bytes → ℕ) → Option Bytes → Option ℕ
verbose_level atoi none = none
verbose_level atoi (some text) =
    some (if leb (2 ^ 31) (atoi text) || ltb 9 (atoi text) then 0 else atoi text)

-- The agent with its arguments; or, with all arguments, the server, or the client of this child.
pub data Role : Type 0 where
  agent_role : List Bytes → Role
  server_role : List Bytes → Role
  client_role : List Bytes → ℕ → Role
  start_fails : Role

-- The pipes that `main` opens.
pub data MainStep : Type 0 where
  in_pipe out_pipe : MainStep

-- What `fork` returns: -1, 0, or the child.
pub data Forked : Type 0 where
  fork_failed in_child : Forked
  in_parent : ℕ → Forked

abbrev pub fork_role : List Bytes → Forked → Role
fork_role argv fork_failed = start_fails
fork_role argv in_child = server_role argv
fork_role argv (in_parent child) = client_role argv child

abbrev pub is_agent_flag : Bytes → Bool
is_agent_flag word = bytes_eq word (codes "-a") || bytes_eq word (codes "--")

-- Behind the set-up of the log.
unfoldable pub start_pair : (MainStep → Bool) → Forked → List Bytes → Role
unfolding until_failure
start_pair succeeds forked argv =
    if (until_failure succeeds (in_pipe ∷ out_pipe ∷ [])).1
    then fork_role argv forked
    else start_fails

unfoldable pub main : (MainStep → Bool) → Forked → List Bytes → Role
unfolding start_pair
main succeeds forked (name ∷ flag ∷ args) =
    if is_agent_flag flag then agent_role args else start_pair succeeds forked (name ∷ flag ∷ args)
main succeeds forked argv = start_pair succeeds forked argv

-- The end of `cli`: the pipes are closed, the server is asked to end, and the client exits.
pub data CliEnd : Type 0 where
  close_in close_out : CliEnd
  terminate : ℕ → CliEnd
  exit_success : CliEnd

unfoldable pub cli_end : ℕ → List CliEnd
cli_end child_pid = close_in ∷ close_out ∷ terminate child_pid ∷ exit_success ∷ []
