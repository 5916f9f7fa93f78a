-- ===== src/Server/Start.antt =====
-- The start of the server, src/pipe.c: `server`, `background_loop` and `call_bootstrap_get_args`, as
-- the calls that they make, in order.
use termtunnel.Base.{ℕ, List, Bool, ◌∷◌, ◌++◌, if◌then◌else◌, [], not, map, false, true}
use termtunnel.Setup.{until_failure}

-- The calls of `background_loop` that are tested.
pub data LoopStep : Type 0 where
  loop_timer_init loop_timer_start in_pipe_init out_pipe_init in_pipe_open out_pipe_open : LoopStep
  in_pipe_read_start tty_init tty_read_start : LoopStep

abbrev pub pipe_steps : List LoopStep
pipe_steps =
    loop_timer_init ∷ loop_timer_start ∷ in_pipe_init ∷ out_pipe_init ∷ in_pipe_open ∷ out_pipe_open
    ∷ in_pipe_read_start ∷ []

-- The calls made, and whether `uv_run` runs. The terminal is made non-blocking between its last two
-- calls, which is not tested.
unfoldable pub background_loop : (LoopStep → Bool) → List LoopStep × Bool
unfolding until_failure
background_loop succeeds = until_failure succeeds (pipe_steps ++ tty_init ∷ tty_read_start ∷ [])

-- The calls of `server`: memory and a handle for the end of the program, then the program itself and
-- the loop.
pub data ServerStep : Type 0 where
  malloc_process_exit process_exit_init run_pty close_stderr set_session alloc_fsm close_pipes :
      ServerStep
  in_loop : LoopStep → ServerStep

pub record ServerRun : Type 0 where
  pub calls : List ServerStep
  pub served : Bool
  pub status : ℕ

-- Only the first two calls are tested: neither the result of `pty_run` nor that of the loop counts.
unfoldable pub server : (ServerStep → Bool) → ServerRun
unfolding until_failure background_loop
server succeeds =
    let first = until_failure succeeds (malloc_process_exit ∷ process_exit_init ∷ []) in
    let looped = background_loop (λ s. succeeds (in_loop s)) in
    if first.1
    then record {
      calls =
          first.0
          ++ run_pty
            ∷ close_stderr
            ∷ set_session
            ∷ alloc_fsm
            ∷ close_pipes
            ∷ (map in_loop looped.0 ++ close_pipes ∷ []);
      served = looped.1;
      status = 0;
    }
    else record { calls = first.0; served = false; status = 1 }

-- `call_bootstrap_get_args`: the memory of the handle, the handle in the loop, and the thread.
pub data ArgsStep : Type 0 where
  malloc_async async_init free_async create_thread detach_thread : ArgsStep

-- The calls, and whether the result is 0.
unfoldable pub call_bootstrap_get_args : (ArgsStep → Bool) → List ArgsStep × Bool
call_bootstrap_get_args succeeds =
    if not (succeeds malloc_async)
    then (malloc_async ∷ [], false)
    else if not (succeeds async_init)
    then (malloc_async ∷ async_init ∷ free_async ∷ [], false)
    else if not (succeeds create_thread)
    then (malloc_async ∷ async_init ∷ create_thread ∷ free_async ∷ [], false)
    else (malloc_async ∷ async_init ∷ create_thread ∷ detach_thread ∷ [], true)
