-- ===== src/Fsm/Pop.antt =====
-- `fsm_pop_output` of src/fsm.c takes one frame, up to and with the first `!`, off the output.
use termtunnel.Base.{
  ℕ, Bytes, All, ◌≡◌, ◌++◌, ◌≢◌, none, length, ok, ◌∷◌, arith, some, [], ◌+◌, add-zero, refl, suc,
  if◌then◌else◌, ltb, fault, aborted, take_through, drop_through,
}
use termtunnel.Fsm.{FsmContext, find_mark, fsm_pop_output}

abbrev pub NoMark : Bytes → Type 0
NoMark = All (λ a. a ≢ b'!')

find_mark-none : (i : ℕ) (out : Bytes) → NoMark out → find_mark i out ≡ none
unfolding find_mark
find_mark-none i [] h = refl
find_mark-none i (a ∷ r) h = ground (arith, find_mark-none (i + 1) r h.1)

find_mark-some :
    (i : ℕ) (f r : Bytes) → NoMark f → find_mark i (f ++ b'!' ∷ r) ≡ some (i + length f)
unfolding find_mark
find_mark-some i [] r h = ground (arith, add-zero i)
find_mark-some i (a ∷ f) r h =
    let e : i + 1 + length f ≡ i + suc (length f) = omega arith in
    ground (arith, find_mark-some (i + 1) f r h.1, e)

-- With no `!` in the output nothing is returned and nothing changes.
pub fsm_pop_output-none :
    (ctx : FsmContext) (max : ℕ) → NoMark ctx.output → fsm_pop_output ctx max ≡ ok ([], ctx)
unfolding fsm_pop_output
fsm_pop_output-none ctx max h = ground (arith, find_mark-none 0 ctx.output h)

-- With a `!` in the output the bytes up to and with the first one are taken off, and nothing else
-- changes, if they leave room for a NUL in the caller's `max` bytes; if not, the `CHECK` fails.
pub fsm_pop_output-some :
    (ctx : FsmContext) (max : ℕ) (f r : Bytes)
    → ctx.output ≡ f ++ b'!' ∷ r
    → NoMark f
    → fsm_pop_output ctx max ≡ (
        if ltb (length f + 1) max
        then ok (f ++ b'!' ∷ [], record ctx { output = r })
        else fault aborted)
unfolding fsm_pop_output
fsm_pop_output-some ctx max f r e h =
    let z : 0 + length f ≡ length f = omega arith in
    ground (arith, find_mark-some 0 f r h, take_through f b'!' r, drop_through f b'!' r, z)
