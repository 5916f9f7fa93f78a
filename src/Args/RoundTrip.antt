-- ===== src/Args/RoundTrip.antt =====
-- `oneshot_run` of src/repl.c reads the arguments that `get_args_done_callback` of src/pipe.c
-- packed.
use termtunnel.Base.{
  Bytes, List, All, ◌≡◌, ◌++◌, ◌≢◌, arith, length, ok, [], map, ◌<◌, refl, some, ◌^◌, ◌>>=◌, leb,
  false, take, ap, sym, ◌∙◌, take-append_length, drop, drop-append_length, true, length-append,
}
use termtunnel.Args.{get_args_done_callback, pack_argv, Bytes, List, ◌∷◌, ok, some, leb}
use termtunnel.Repl.{cut_nul}
use termtunnel.Repl.Runs.{read_args, read_argv}
use termtunnel.Words.{le_bytes, length-le_bytes, from_le-le_bytes}
use termtunnel.Intent.{until_nul}

-- A C string.
abbrev pub NoNul : Bytes → Type 0
NoNul = All (λ a. a ≢ 0)

until_nul-NoNul : (xs : Bytes) → NoNul xs → until_nul xs ≡ xs
unfolding until_nul
until_nul-NoNul [] h = refl
until_nul-NoNul (x ∷ xs) h = ground (arith, until_nul-NoNul xs h.1)

cut_nul_text : (xs r : Bytes) → NoNul xs → cut_nul (xs ++ 0 ∷ r) ≡ ok (xs, r)
unfolding cut_nul
cut_nul_text [] r h = refl
cut_nul_text (x ∷ xs) r h = ground (arith, cut_nul_text xs r h.1)

unfoldable pub packed : List Bytes → Bytes
packed [] = []
packed (w ∷ ws) = w ++ 0 ∷ packed ws

pack_argv-packed :
    (ws : List Bytes) → All NoNul ws → pack_argv (length ws) (map some ws) ≡ ok (packed ws)
unfolding pack_argv packed
pack_argv-packed [] h = refl
pack_argv-packed (w ∷ ws) h = rw (pack_argv-packed ws h.1, until_nul-NoNul w h.0) refl

read_argv-packed : (ws : List Bytes) → All NoNul ws → read_argv (length ws) (packed ws) ≡ ok ws
unfolding read_argv packed
read_argv-packed [] h = refl
read_argv-packed (w ∷ ws) h = rw (cut_nul_text w (packed ws) h.0, read_argv-packed ws h.1) refl

-- The payload of the reply.
abbrev pub reply_of : List Bytes → Bytes
reply_of ws = le_bytes 4 (length ws) ++ packed ws

pub get_args_done_callback-reply_of :
    (ws : List Bytes)
    → All NoNul ws
    → length ws < 2 ^ 31
    → get_args_done_callback (length ws) (some (map some ws)) ≡ ok (reply_of ws)
unfolding get_args_done_callback
get_args_done_callback-reply_of ws h l =
    let small : leb (2 ^ 31) (length ws) ≡ false = ground (arith, l) in
    rw (small, pack_argv-packed ws h) refl

pub read_args-reply_of :
    (ws : List Bytes) → All NoNul ws → length ws < 2 ^ 31 → read_args (reply_of ws) ≡ ok ws
unfolding read_args
read_args-reply_of ws h l =
    let count = le_bytes 4 (length ws) in
    let n = length-le_bytes 4 (length ws) in
    let e : take 4 (count ++ packed ws) ≡ count =
      ap (λ k. take k (count ++ packed ws)) (sym n) ∙ take-append_length count (packed ws) in
    let f : drop 4 (count ++ packed ws) ≡ packed ws =
      ap (λ k. drop k (count ++ packed ws)) (sym n) ∙ drop-append_length count (packed ws) in
    let enough : leb 4 (length (count ++ packed ws)) ≡ true =
      ground (arith, length-append count (packed ws), n) in
    rw (enough, e, f, from_le-le_bytes 4 (length ws) (omega (arith, l))) (read_argv-packed ws h)

-- Arguments that are C strings, fewer than 2^31 and none of them NULL, are read by the client as
-- they were packed.
pub read_args-get_args_done_callback :
    (ws : List Bytes)
    → All NoNul ws
    → length ws < 2 ^ 31
    → (get_args_done_callback (length ws) (some (map some ws)) >>= λ buf. read_args buf) ≡ ok ws
read_args-get_args_done_callback ws h l =
    rw (get_args_done_callback-reply_of ws h l) (read_args-reply_of ws h l)
