-- ===== src/Tests/Processes.antt =====
-- The child behind the terminal, its start, and the end of the agent.
use termtunnel.Base.{
  List, none, true, Bytes, some, false, ◌≢◌, codes, ◌∷◌, ◌≡◌, [], arith, ◌++◌, refl, replicate,
}
use termtunnel.Tests.Session.{prompt}
use termtunnel.Pty.Exec.{pty_child-executes, Table, pty_child, executes, exec_winsize}
use termtunnel.Pty.Run.{
  pty_run-IsSettled, Calls, pty_run, IsSettled, start_watcher, run_exits, child,
}
use termtunnel.Tests.Client.{world}
use termtunnel.Command
use termtunnel.Terminal.{Modes, Terminal, terminal_steps, pass_through, read_lines, at_exit}
use termtunnel.Terminal.Keeps.{modes_after, terminal_steps-modes_after}
use termtunnel.Utils.{green_encode}
use termtunnel.Cli.{Round}

abbrev nothing_open : Table
nothing_open fd = none

pty_child-executes_example :
    (left : Table) × (pty_child none (some 5) 4 64 (codes "sh" ∷ codes "-i" ∷ []) nothing_open
      ≡ executes (exec_winsize none) (codes "sh" ∷ codes "-i" ∷ []) left)
    × (left 5 ≡ none)
pty_child-executes_example =
    pty_child-executes none 5 4 64 (codes "sh") (codes "-i" ∷ []) nothing_open 5 (omega arith)
      (omega arith) (omega arith)

-- No thread can be started.
abbrev no_thread : Calls
no_thread = record {
  open_ptmx = true;
  grantpt = true;
  unlockpt = true;
  malloc_name = true;
  ptsname_r = true;
  fork = true;
  malloc_arg = true;
  pthread_create = false;
}

no_thread_returns : (pty_run no_thread).1 ≢ run_exits
unfolding pty_run start_watcher
no_thread_returns e = ground arith

pty_run-IsSettled_example : IsSettled no_thread child
pty_run-IsSettled_example = pty_run-IsSettled no_thread child no_thread_returns

-- Two tasks run at the first `exit`, and none at the second.
abbrev two_exits : List Bytes
two_exits = codes "exit" ∷ codes " exit " ∷ []

abbrev exit_reads : List Bytes
exit_reads = codes "EX" ∷ codes "IT!\n" ∷ []

abbrev all_set : Modes
all_set = record { flags = λ f. true; vmin = 4; vtime = 0 }

abbrev fresh : Terminal
fresh = record { modes = all_set; backup = all_set; is_raw = false; handlers = 0 }

terminal_steps-modes_after_example :
    ((terminal_steps fresh (pass_through ∷ (read_lines ∷ [] ++ pass_through ∷ []))).modes
      ≡ modes_after all_set pass_through)
    × ((at_exit
          (terminal_steps fresh (pass_through ∷ (read_lines ∷ [] ++ pass_through ∷ [])))).modes
        ≡ all_set)
terminal_steps-modes_after_example =
    terminal_steps-modes_after fresh (read_lines ∷ []) pass_through refl

abbrev magic_reads : List Bytes
magic_reads = prompt ∷ (green_encode (codes "MAGIC!") ++ codes ">") ∷ []

abbrev exit_round : Round
exit_round = record {
  turns = [];
  winsize = replicate 8 0;
  fuel = 4;
  world = world;
  lines = two_exits;
}
