-- ===== src/Args.antt =====
-- The arguments of a oneshot run: `get_args_done_callback` of src/pipe.c, which packs them for the
-- client, whose `oneshot_run` reads them (Repl.antt). Sizes stay below `SIZE_MAX`.
pub mod RoundTrip
use termtunnel.Base.{
  ℕ, List, Option, Bytes, Result, ok, if◌then◌else◌, [], leb, suc, ◌^◌, fault, out_of_bounds, ◌∷◌,
  some, ◌>>=◌, ◌++◌, zero, none,
}
use termtunnel.Words.{le_bytes}
use termtunnel.Intent.{until_nul}

-- `g_oneshot_argv[i]` for the first `argc` of the array; `none` is NULL.
unfoldable pub pack_argv : ℕ → List (Option Bytes) → Result Bytes
pack_argv zero argv = ok []
pack_argv (suc n) [] = fault out_of_bounds
pack_argv (suc n) (none ∷ argv) = pack_argv n argv
pack_argv (suc n) (some arg ∷ argv) = pack_argv n argv >>= λ r. ok (until_nul arg ++ 0 ∷ r)

-- The payload of the `COMMAND_GET_ARGS_REPLY` that `get_args_done_callback` writes:
-- `g_oneshot_argc`, a pattern of 32 bits, and the texts. `none` for the array is NULL.
unfoldable pub get_args_done_callback : ℕ → Option (List (Option Bytes)) → Result Bytes
unfolding pack_argv
get_args_done_callback argc argv =
    let count = if leb (2 ^ 31) argc then 0 else argc in
    elim argv [
      | none ↦ ok (le_bytes 4 count)
      | some args ↦ pack_argv count args >>= λ r. ok (le_bytes 4 count ++ r)
    ]
