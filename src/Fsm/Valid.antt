-- ===== src/Fsm/Valid.antt =====
-- The bounds of src/fsm.c: offsets and capacities, kept by every handler.
use termtunnel.Base.{
  ℕ, ◌+◌, ◌*◌, ◌≤◌, ◌<◌, ◌≡◌, refl, true, [], ◌∷◌, ◌++◌, Bytes, length, get_or, get_elem?-eq-some,
  ltb, if◌then◌else◌, Result, ok, fault, arith, length-append, length-drop,
}
use termtunnel.Fsm.{
  FsmState, plaintext, escape_enter, csi_enter, csi_arg, csi_exit, csi_other, FsmContext, current,
  fsm_append_output, handle_csi_other, handle_plaintext, handle_escape_enter, handle_csi_enter,
  handle_csi_arg, handle_csi_exit, fsm_gc, handle, fsm_enter, fsm_init, fsm_append_input,
}

pub record IsValid (ctx : FsmContext) : Type 0 where
  pub processed_le : ctx.processed ≤ ctx.offset
  pub processed_in : ctx.processed ≤ length ctx.input
  pub offset_le : ctx.offset ≤ length ctx.input + 1
  pub input_fits : length ctx.input ≤ (if ctx.has_input then ctx.input_cap else 0)
  pub output_fits : length ctx.output ≤ (if ctx.has_output then ctx.output_cap else 0)
  pub output_room : (if ctx.has_output then 1024 else 0) ≤ ctx.output_cap

-- The property of a result, if there is one.
abbrev pub Holds {ℓ κ} : {A : Type ℓ} → (A → Type κ) → Result A → Type κ
Holds P (ok a) = P a
Holds P (fault e) = Unit

-- A byte always fits the output once the buffer has been doubled.
pub fsm_append_output-ok :
    (ctx : FsmContext) (a : ℕ)
    → IsValid ctx
    → (c : FsmContext) × (fsm_append_output ctx (a ∷ []) ≡ ok c)
      × IsValid c
      × (c ≡ record ctx {
        has_output = true;
        output_cap = c.output_cap;
        output = ctx.output ++ a ∷ [];
      })
unfolding fsm_append_output
fsm_append_output-ok ctx a v = (
  record ctx {
    has_output = true;
    output_cap =
        if ltb (if ctx.has_output then ctx.output_cap else 1024) (1 + length ctx.output)
        then (if ctx.has_output then ctx.output_cap else 1024) * 2
        else (if ctx.has_output then ctx.output_cap else 1024);
    output = ctx.output ++ a ∷ [];
  },
  ground (arith, length-append ctx.output (a ∷ [])),
  ground (arith, length-append ctx.output (a ∷ [])),
  refl,
)

pub fsm_append_input-ok :
    (ctx : FsmContext) (bytes : Bytes)
    → IsValid ctx
    → (c : FsmContext) × (fsm_append_input ctx bytes ≡ ok c)
      × IsValid c
      × (c ≡ record ctx { has_input = true; input_cap = c.input_cap; input = ctx.input ++ bytes })
unfolding fsm_append_input
fsm_append_input-ok ctx bytes v = (
  record ctx {
    has_input = true;
    input_cap =
        if ltb (if ctx.has_input then ctx.input_cap else 1024) (length bytes + length ctx.input)
        then (length bytes + length ctx.input) * 2
        else (if ctx.has_input then ctx.input_cap else 1024);
    input = ctx.input ++ bytes;
  },
  ground (arith, length-append ctx.input bytes),
  ground (arith, length-append ctx.input bytes),
  refl,
)

pub handle-IsValid :
    (s : FsmState) (ctx : FsmContext)
    → IsValid ctx
    → ctx.offset < length ctx.input
    → Holds IsValid (handle s ctx)
unfolding handle_csi_other handle_plaintext handle_escape_enter handle_csi_enter handle_csi_arg
    handle_csi_exit current
handle-IsValid plaintext ctx v h =
    let a = get_or ctx.input ctx.offset 0 in
    let (c, done, w, shape) = fsm_append_output-ok ctx a v in
    ground (arith, get_elem?-eq-some ctx.offset ctx.input 0 h, done, w, shape)
handle-IsValid escape_enter ctx v h = ground arith
handle-IsValid csi_enter ctx v h = ground arith
handle-IsValid csi_arg ctx v h = ground arith
handle-IsValid csi_exit ctx v h = ground arith
handle-IsValid csi_other ctx v h = ground arith

pub fsm_enter-IsValid : (ctx : FsmContext) → IsValid ctx → IsValid (fsm_enter ctx)
unfolding fsm_enter fsm_gc
fsm_enter-IsValid ctx v = ground (arith, length-drop ctx.processed ctx.input)

pub fsm_init-IsValid : IsValid fsm_init
unfolding fsm_init
fsm_init-IsValid = ground arith
