-- ===== src/Tests/Client.antt =====
-- The client's commands.
use termtunnel.Base.{
  ℕ, codes, Bytes, arith, ◌+◌, none, ◌≡◌, ◌∷◌, replicate, ◌≤◌, [], length, ok, refl,
  length-replicate, bytes_eq,
}
use termtunnel.Repl.{
  split, World, say, send, split_loop, recv_data, expect_read, got, running_tasks,
}
use termtunnel.Repl.Commands.{repl_execve, basename, basename_loop, find_action, exit_func}
use termtunnel.Repl.Runs.{repl_run, repl_loop, read_running_task}
use termtunnel.Repl.Words.{split_typed, bare, quoted}
use termtunnel.Intent.{path_max, until_nul}
use termtunnel.Intent.RoundTrip.{IsPath}
use termtunnel.Command
use termtunnel.Words.{from_le}

-- An unfinished word in quotes, and more words than places.
split_tests :
    (split (codes "rz  \"a b\" c") 20 ≡ codes "rz" ∷ codes "a b" ∷ codes "c" ∷ [])
    × (split (codes "x \"y z") 20 ≡ codes "x" ∷ codes "y z" ∷ [])
    × (split (codes "a b c ") 2 ≡ codes "a" ∷ codes "b" ∷ [])
unfolding split split_loop until_nul
split_tests = (refl, refl, refl)

split_typed_example : split (codes "rz \"a b\" ") 20 ≡ codes "rz" ∷ codes "a b" ∷ []
split_typed_example = split_typed (bare b'r' (codes "z") ∷ quoted (codes "a b") ∷ []) 20 (
  (ground arith, ((refl, ground arith), ((refl, ground arith), tt))),
  (
    (
      (ground arith, ground arith),
      ((ground arith, ground arith), ((ground arith, ground arith), tt)),
    ),
    tt,
  ),
)

abbrev pub url : Bytes
url = codes "/a/b"

pub url-IsPath : IsPath url
url-IsPath = record {
  no_nul = (ground arith, (ground arith, (ground arith, (ground arith, tt))));
  fits = omega arith;
}

basename_tests :
    (basename url ≡ codes "b")
    × (basename (codes "/a/b//") ≡ codes "b")
    × (basename (codes "//") ≡ codes "/")
unfolding basename basename_loop
basename_tests = (refl, refl, refl)

abbrev pub memory : Bytes
memory = replicate 8196 7

pub memory_size : path_max + path_max + 4 ≤ length memory
memory_size = omega (arith, length-replicate {A = ℕ} 8196 7)

abbrev pub world : World
world = record { dialog = none; memory = memory }

-- `exit` while one task runs, and then `exit -f`.
abbrev one_task : Bytes
one_task = 4 ∷ 0 ∷ 0 ∷ 0 ∷ 0 ∷ 0 ∷ 0 ∷ 0 ∷ 9 ∷ 0 ∷ 0 ∷ 0 ∷ 0 ∷ 0 ∷ 0 ∷ 0 ∷ 1 ∷ 0 ∷ 0 ∷ 0 ∷ []

repl_run_test :
    repl_run 9 world (codes "exit" ∷ codes "exit -f" ∷ []) (got one_task ∷ [])
    ≡ ok (
      send Command.get_running_task_count []
          ∷ say (running_tasks 1)
          ∷ send Command.exit_repl []
          ∷ [],
      [],
    )
unfolding repl_run repl_loop split split_loop until_nul repl_execve find_action exit_func
    read_running_task recv_data expect_read from_le bytes_eq
repl_run_test = refl
