-- ===== src/Agentcall/Arguments.antt =====
-- `bootstrap_get_args` of src/agentcall.c reads the answer of `agentcall_server_request`.
use termtunnel.Agentcall.{
  bootstrap_get_args, read_chunk_size, read_strings, max_oneshot_argc, vnet_readn, args_answer,
}
use termtunnel.Base.{
  ℕ, ◌≤◌, List, Bytes, ◌≢◌, All, map, length, flatten, leb, ◌<◌, ◌≡◌, [], ◌∷◌, ◌++◌, ◌^◌, false, ok,
  ◌||◌, refl, arith, some, ltb, append_assoc, ◌∙◌,
}
use termtunnel.Words.{le_bytes, length-le_bytes, from_le-le_bytes}
use termtunnel.Vnet.{read_chunk_size, vnet_readn}
use termtunnel.Vnet.Reads.{
  NotEmpty, arrivals, duplicate_text, readn_loop_gets, vnet_readstring_gets,
}

-- An argument that the buffer of `bootstrap_get_args` holds with its NUL.
pub record IsArgument (s : Bytes) : Type 0 where
  pub no_nul : All (λ a. a ≢ 0) s
  pub fits : length s < read_chunk_size

abbrev texts : List Bytes → Bytes
texts argv = flatten (map (λ a. a ++ 0 ∷ []) argv)

read_strings-texts :
    (argv xs : List Bytes)
    → All IsArgument argv
    → All NotEmpty xs
    → flatten xs ≡ texts argv
    → read_strings (length argv) (record { stale = false; reads = arrivals xs }) ≡ ok (some argv)
unfolding read_strings
read_strings-texts [] xs h x e = refl
read_strings-texts (a ∷ argv) xs h x e =
    let (more, first, left, good) =
      vnet_readstring_gets read_chunk_size a (texts argv) xs h.0.no_nul h.0.fits x
        (e ∙ append_assoc a (0 ∷ []) (texts argv)) in
    let others = read_strings-texts argv more h.1 good left in
    rw (first, duplicate_text a h.0.no_nul, others) refl

count_small : (n : ℕ) → n ≤ max_oneshot_argc → (leb (2 ^ 31) n || ltb max_oneshot_argc n) ≡ false
count_small n h = ground arith

-- However the answer of the agent is cut, as long as no read fails and errno is not EINTR or EAGAIN
-- from an earlier call: up to 1024 arguments, each shorter than the buffer, are read as the agent
-- has them.
pub bootstrap_get_args-args_answer :
    (argv xs : List Bytes)
    → All IsArgument argv
    → length argv ≤ max_oneshot_argc
    → All NotEmpty xs
    → flatten xs ≡ args_answer argv
    → bootstrap_get_args (record { stale = false; reads = arrivals xs }) ≡ ok (some argv)
unfolding bootstrap_get_args vnet_readn args_answer
bootstrap_get_args-args_answer argv xs h l x e =
    let (more, ran, left, good) =
      readn_loop_gets xs 4 (le_bytes 4 (length argv)) (texts argv) x e
        (length-le_bytes 4 (length argv)) in
    let n = from_le-le_bytes 4 (length argv) (omega arith) in
    let small : (leb (2 ^ 31) (length argv) || ltb max_oneshot_argc (length argv)) ≡ false =
      count_small (length argv) l in
    rw (ran, n, small) (read_strings-texts argv more h good left)
