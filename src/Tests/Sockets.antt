-- ===== src/Tests/Sockets.antt =====
-- The arguments of a oneshot run, and the reads of sockets.
use termtunnel.Agentcall.{bootstrap_get_args, args_answer}
use termtunnel.Base.{
  List, Bytes, ◌∷◌, false, true, [], ◌≡◌, codes, ◌++◌, ok, fault, some, out_of_bounds, arith, refl,
}
use termtunnel.Agentcall.Arguments.{bootstrap_get_args-args_answer}
use termtunnel.Vnet.Reads.{arrivals}
use termtunnel.Words.{le_bytes}
use termtunnel.Vnet.{vnet_readstring, readstring_loop, arrived}

abbrev answer : List Bytes
answer = (1 ∷ 0 ∷ []) ∷ (0 ∷ 0 ∷ codes "r") ∷ (codes "z" ++ 0 ∷ []) ∷ []

bootstrap_get_args-args_answer_example :
    bootstrap_get_args (record { stale = false; reads = arrivals answer })
    ≡ ok (some (codes "rz" ∷ []))
unfolding args_answer le_bytes
bootstrap_get_args-args_answer_example =
    bootstrap_get_args-args_answer (codes "rz" ∷ []) answer
      (record { no_nul = (ground arith, (ground arith, tt)); fits = omega arith }, tt) (omega arith)
      (ground arith, (ground arith, (ground arith, tt))) refl

-- With an errno left over from an earlier call, `vnet_readstring` reads in front of its buffer.
stale_errno :
    vnet_readstring 4096 (record { stale = true; reads = arrived (codes "a") ∷ [] })
    ≡ fault out_of_bounds
unfolding vnet_readstring readstring_loop
stale_errno = refl
