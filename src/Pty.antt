-- ===== src/Pty.antt =====
-- The program behind the terminal, src/pty.c: how the server waits for its end. The tests of a wait
-- status are macros of the C library, and parameters here.
pub mod Exec
pub mod Run
use termtunnel.Base.{
  ℕ, Bool, if◌then◌else◌, List, ◌<◌, ◌≡◌, ◌||◌, Result, true, false, ◌∷◌, All, arith, fault, ok,
  ◌++◌, out_of_fuel, [], refl,
}

-- `WIFEXITED`, `WIFSIGNALED` and `WEXITSTATUS` of <sys/wait.h>.
pub record WaitStatus : Type 0 where
  pub wifexited : ℕ → Bool
  pub wifsignaled : ℕ → Bool
  pub wexitstatus : ℕ → ℕ

-- What a call of `waitpid` returns: -1 with EINTR, -1 with another error, which leaves the status as
-- it was, or the child with its status.
pub data Waited : Type 0 where
  wait_interrupted wait_failed : Waited
  wait_child : ℕ → Waited

abbrev pub is_over : WaitStatus → ℕ → Bool
is_over w status = w.wifexited status || w.wifsignaled status

-- Behind the loop, for a child that was waited for.
unfoldable pub exit_code : WaitStatus → ℕ → ℕ
exit_code w status = if w.wifexited status then w.wexitstatus status else 255

-- The loop of `do_waitpid`, from a status, over what the calls return.
unfoldable pub wait_from : WaitStatus → ℕ → List Waited → Result ℕ
unfolding exit_code
wait_from w status [] = fault out_of_fuel
wait_from w status (wait_interrupted ∷ ws) = wait_from w status ws
wait_from w status (wait_failed ∷ ws) =
    let rest = wait_from w status ws in if is_over w status then ok 255 else rest
wait_from w status (wait_child next ∷ ws) =
    let rest = wait_from w next ws in if is_over w next then ok (exit_code w next) else rest

unfoldable pub do_waitpid : WaitStatus → List Waited → Result ℕ
unfolding wait_from
do_waitpid w ws = wait_from w 0 ws

-- What POSIX says of the macros: an exit status is 8 bits of the status.
pub record IsWaitStatus (w : WaitStatus) : Type 0 where
  pub exit_byte : (s : ℕ) → w.wexitstatus s < 256
  pub one_end : (s : ℕ) → w.wifsignaled s ≡ true → w.wifexited s ≡ false

-- A call that does not end the loop: an interrupt, or news of a child that goes on.
abbrev pub GoesOn : WaitStatus → Waited → Type 0
GoesOn w wait_interrupted = Unit
GoesOn w wait_failed = ⊥
GoesOn w (wait_child s) = is_over w s ≡ false

-- How a child can end: it exits with this status, or a signal ends it.
pub data End : Type 0 where
  by_exit by_signal : ℕ → End

abbrev pub end_status : End → ℕ
end_status (by_exit s) = s
end_status (by_signal s) = s

abbrev pub IsEnd : WaitStatus → End → Type 0
IsEnd w (by_exit s) = w.wifexited s ≡ true
IsEnd w (by_signal s) = w.wifsignaled s ≡ true

-- The code that a user of the program's terminal expects.
abbrev pub end_code : WaitStatus → End → ℕ
end_code w (by_exit s) = w.wexitstatus s
end_code w (by_signal s) = 255

end_code-wait :
    (w : WaitStatus) (e : End) (status : ℕ) (ws : List Waited)
    → IsWaitStatus w
    → IsEnd w e
    → wait_from w status (wait_child (end_status e) ∷ ws) ≡ ok (end_code w e)
unfolding wait_from exit_code
end_code-wait w (by_exit s) status ws p h = rw h refl
end_code-wait w (by_signal s) status ws p h = rw (p.one_end s h, h) refl

wait_from-GoesOn :
    (w : WaitStatus) (e : End) (status : ℕ) (passed ws : List Waited)
    → IsWaitStatus w
    → IsEnd w e
    → All (GoesOn w) passed
    → wait_from w status (passed ++ wait_child (end_status e) ∷ ws) ≡ ok (end_code w e)
unfolding wait_from
wait_from-GoesOn w e status [] ws p h g = end_code-wait w e status ws p h
wait_from-GoesOn w e status (wait_interrupted ∷ qs) ws p h g =
    wait_from-GoesOn w e status qs ws p h g.1
wait_from-GoesOn w e status (wait_failed ∷ qs) ws p h g = absurd g.0
wait_from-GoesOn w e status (wait_child s ∷ qs) ws p h g =
    rw g.0 (wait_from-GoesOn w e s qs ws p h g.1)

-- However often `waitpid` is interrupted or tells of a child that goes on, before the call that tells
-- of the child's end: `do_waitpid` returns, with the exit status of a child that has exited, and with
-- 255 for one that a signal has ended.
pub do_waitpid-end_code :
    (w : WaitStatus) (e : End) (passed ws : List Waited)
    → IsWaitStatus w
    → IsEnd w e
    → All (GoesOn w) passed
    → do_waitpid w (passed ++ wait_child (end_status e) ∷ ws) ≡ ok (end_code w e)
unfolding do_waitpid
do_waitpid-end_code w e passed ws p h g = wait_from-GoesOn w e 0 passed ws p h g

pub end_code_small : (w : WaitStatus) (e : End) → IsWaitStatus w → end_code w e < 256
end_code_small w (by_exit s) p = p.exit_byte s
end_code_small w (by_signal s) p = omega arith
