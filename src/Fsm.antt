-- ===== src/Fsm.antt =====
-- src/fsm.c and src/fsm.h: the state machine that finds the text printed in green on green in the
-- byte stream of a terminal. A buffer is the list of its valid bytes (`input_size` and
-- `output_size` are the lengths of the lists) beside its capacity; `has_input` and `has_output`
-- say that the pointer is not NULL. `malloc` and `realloc` succeed, as the source supposes.
pub mod Valid
pub mod Sizes
pub mod Checked
pub mod Stream
pub mod Refine
pub mod Run
pub mod Feed
pub mod Green
pub mod Overflow
pub mod Output
pub mod Pop
use termtunnel.Base.{
  ℕ, zero, suc, ◌+◌, ◌-◌, ◌*◌, ◌%◌, Bool, true, false, ◌&&◌, ◌||◌, Option, none, some, List, [],
  ◌∷◌, ◌++◌, Bytes, length, get_elem?, set, take, drop, replicate, ltb, leb, ◌==◌, if◌then◌else◌,
  Result, ok, fault, ◌>>=◌, ◌>>◌, guard, out_of_bounds, int_overflow, aborted, out_of_fuel,
}

-- The values of `ctx->state`.
pub data FsmState : Type 0 where
  plaintext escape_enter csi_enter csi_arg csi_exit csi_other : FsmState

pub record CsiInfo : Type 0 where
  pub argc : ℕ
  pub argv : List ℕ
  pub cur : ℕ

-- The int fields, and those of `CsiInfo`, are natural numbers here: the model stands for the source
-- as long as they stay below 2^31, and past that the source overflows.
pub record FsmContext : Type 0 where
  pub state : FsmState
  pub run_count : ℕ
  pub processed : ℕ
  pub offset : ℕ
  pub has_input : Bool
  pub input : Bytes
  pub input_cap : ℕ
  pub bg_colorflag : Bool
  pub fg_colorflag : Bool
  pub has_output : Bool
  pub output : Bytes
  pub output_cap : ℕ
  pub csi : CsiInfo

-- `int argv[16]`
abbrev pub argv_size : ℕ
argv_size = 16

abbrev pub int_max : ℕ
int_max = 2147483647

-- `'[' - 64`
abbrev pub esc : ℕ
esc = 27

-- `memset(csi, 0, sizeof(csi_info))`
abbrev pub csi_zero : CsiInfo
csi_zero = record { argc = 0; argv = replicate argv_size 0; cur = 0 }

abbrev pub is_digit : ℕ → Bool
is_digit a = leb b'0' a && leb a b'9'

-- `ctx->input[ctx->offset]`, which is valid below `input_size`.
unfoldable pub current : FsmContext → Result ℕ
current ctx = elim (get_elem? ctx.input ctx.offset) [ none ↦ fault out_of_bounds | some a ↦ ok a ]

abbrev pub fallback_to_plaintext : FsmContext → FsmContext
fallback_to_plaintext ctx = record ctx { state = plaintext; processed = ctx.offset }

-- The copy of `memmerge` writes past the buffer unless the bytes fit its capacity. `output_cap * 2` is meant to stay in the range of an int, as in `FsmContext`.
unfoldable pub fsm_append_output : FsmContext → Bytes → Result FsmContext
fsm_append_output ctx bytes = do
  let cap0 = if ctx.has_output then ctx.output_cap else 1024
  let cap = if ltb cap0 (length bytes + length ctx.output) then cap0 * 2 else cap0
  guard (leb (length ctx.output + length bytes) cap) out_of_bounds
  ok (record ctx { has_output = true; output_cap = cap; output = ctx.output ++ bytes })

unfoldable pub handle_csi_other : FsmContext → Result FsmContext
handle_csi_other ctx = do
  a ← current ctx
  if a == esc
      then ok (record ctx { state = escape_enter; offset = ctx.offset + 1 })
      else if a == b'(' || a == b')'
      then ok (record ctx { offset = ctx.offset + 2; state = plaintext })
      else ok (record ctx { state = plaintext; processed = ctx.offset; offset = ctx.offset + 1 })

unfoldable pub handle_plaintext : FsmContext → Result FsmContext
handle_plaintext ctx = do
  a ← current ctx
  if a == esc then ok (record ctx { state = escape_enter; offset = ctx.offset + 1 }) else do
    c ← if ctx.bg_colorflag && ctx.fg_colorflag then fsm_append_output ctx (a ∷ []) else ok ctx
    ok (record c { processed = c.offset; offset = c.offset + 1 })

unfoldable pub handle_escape_enter : FsmContext → Result FsmContext
handle_escape_enter ctx = do
  a ← current ctx
  if a == b'[' || a == b'?'
      then ok (record ctx { state = csi_enter; offset = ctx.offset + 1 })
      else ok (record ctx { state = csi_other })

unfoldable pub handle_csi_enter : FsmContext → Result FsmContext
handle_csi_enter ctx = do
  a ← current ctx
  if is_digit a || a == b';' || a == b'm'
      then ok (record ctx { csi = csi_zero; state = csi_arg })
      else if a == b'H'
      then ok (record ctx { state = csi_exit })
      else ok (fallback_to_plaintext ctx)

-- `argv[cur] = argv[cur] * 10 + digit` on an array of 16 `int`s.
unfoldable pub csi_digit : CsiInfo → ℕ → Result CsiInfo
csi_digit csi digit = elim (get_elem? csi.argv csi.cur) [
  | none ↦ fault out_of_bounds
  | some v ↦
      guard (leb (v * 10 + digit) int_max) int_overflow
      >> ok (record csi { argv = set csi.argv csi.cur (v * 10 + digit) })
]

unfoldable pub handle_csi_arg : FsmContext → Result FsmContext
handle_csi_arg ctx = do
  a ← current ctx
  if a == b'['
      then ok (record ctx { csi = record csi { argc = 0 }; state = csi_enter; offset = offset + 1 })
      else if a == b'm'
      then ok (record ctx { csi = record csi { argc = csi.argc + 1 }; state = csi_exit })
      else if a == b'l' || a == b'y'
      then ok (record ctx { csi = record csi { argc = 0 }; state = csi_exit })
      else if a == b';'
      then ok (record ctx {
        csi = record csi { cur = csi.cur + 1; argc = csi.argc + 1 };
        offset = offset + 1;
      })
      else if is_digit a
      then (csi_digit csi (a - b'0') >>= λ c. ok (record ctx { csi = c; offset = offset + 1 }))
      else ok (record ctx { state = plaintext; processed = offset; offset = offset + 1 })
  where
    open ctx use {csi, offset}

-- What one parameter does to `bg_colorflag`, and to `fg_colorflag`: the tests of the loop's body
-- that write the flag, in their order.
unfoldable pub bg_param : ℕ → Bool → Bool
bg_param num bg =
    let a = if leb 40 num && leb num 47 then false else bg in
    let b = if num == 42 then true else a in
    let c = if num == 0 then false else b in
    let d = if num == 49 then false else c in if num == 48 then false else d

unfoldable pub fg_param : ℕ → Bool → Bool
fg_param num fg =
    let a = if leb 30 num && leb num 37 then false else fg in
    let b = if num == 32 then true else a in
    let c = if num == 0 then false else b in
    let d = if num == 39 then false else c in if num == 38 then false else d

-- The loop of `event_csi_callback`: the rounds left, `i`, the array and the two flags.
unfoldable pub csi_colors : ℕ → ℕ → List ℕ → Bool → Bool → Result (Bool × Bool)
csi_colors zero i argv bg fg = ok (bg, fg)
csi_colors (suc n) i argv bg fg = elim (get_elem? argv i) [
  | none ↦ fault out_of_bounds
  | some num ↦ csi_colors n (i + 1) argv (bg_param num bg) (fg_param num fg)
]

unfoldable pub event_csi_callback : FsmContext → Result FsmContext
event_csi_callback ctx =
    csi_colors ctx.csi.argc 0 ctx.csi.argv ctx.bg_colorflag ctx.fg_colorflag >>= λ p.
    ok (record ctx { bg_colorflag = p.0; fg_colorflag = p.1 })

unfoldable pub handle_csi_exit : FsmContext → Result FsmContext
unfolding event_csi_callback
handle_csi_exit ctx = do
  c ← event_csi_callback ctx
  ok (record c { state = plaintext; processed = c.offset; offset = c.offset + 1 })

-- `ctx->processed` bytes are dropped from the front of the input.
unfoldable pub fsm_gc : FsmContext → FsmContext
fsm_gc ctx =
    if ltb 0 ctx.processed
    then record ctx {
      input = drop ctx.processed ctx.input;
      offset = ctx.offset - ctx.processed;
      processed = 0;
    }
    else ctx

-- The `switch` of `fsm_run`; its `default` cannot be met.
abbrev pub handle : FsmState → FsmContext → Result FsmContext
handle plaintext ctx = handle_plaintext ctx
handle escape_enter ctx = handle_escape_enter ctx
handle csi_enter ctx = handle_csi_enter ctx
handle csi_arg ctx = handle_csi_arg ctx
handle csi_exit ctx = handle_csi_exit ctx
handle csi_other ctx = handle_csi_other ctx

-- The `while` of `fsm_run`, on fuel.
unfoldable pub fsm_loop : ℕ → FsmContext → Result FsmContext
fsm_loop zero ctx = fault out_of_fuel
fsm_loop (suc fuel) ctx = elim (ltb ctx.offset (length ctx.input)) [
  | true ↦ handle ctx.state ctx >>= λ c. fsm_loop fuel c
  | false ↦ ok ctx
]

-- A byte takes at most three rounds.
abbrev pub fsm_fuel : FsmContext → ℕ
fsm_fuel ctx = 4 * (length ctx.input - ctx.offset) + 4

-- `fsm_run` up to its loop.
unfoldable pub fsm_enter : FsmContext → FsmContext
unfolding fsm_gc
fsm_enter ctx =
    let c = record ctx { run_count = ctx.run_count + 1 } in
    if c.run_count % 100 == 0 then fsm_gc c else c

unfoldable pub fsm_run : FsmContext → Result FsmContext
fsm_run ctx = let c = fsm_enter ctx in fsm_loop (fsm_fuel c) c

-- `fsm_alloc`
unfoldable pub fsm_init : FsmContext
fsm_init = record {
  state = plaintext;
  run_count = 0;
  processed = 0;
  offset = 0;
  has_input = false;
  input = [];
  input_cap = 0;
  bg_colorflag = false;
  fg_colorflag = false;
  has_output = false;
  output = [];
  output_cap = 0;
  csi = csi_zero;
}

-- `(input_size + n) * 2` is meant to stay in the range of an int, as in `FsmContext`.
unfoldable pub fsm_append_input : FsmContext → Bytes → Result FsmContext
fsm_append_input ctx bytes = do
  let cap0 = if ctx.has_input then ctx.input_cap else 1024
  let need = length bytes + length ctx.input
  let cap = if ltb cap0 need then need * 2 else cap0
  guard (leb (length ctx.input + length bytes) cap) out_of_bounds
  ok (record ctx { has_input = true; input_cap = cap; input = ctx.input ++ bytes })

-- The place of the first `!`, counted from `i`.
unfoldable pub find_mark : ℕ → Bytes → Option ℕ
find_mark i [] = none
find_mark i (c ∷ cs) = if c == b'!' then some i else find_mark (i + 1) cs

-- The bytes copied to `dst` (none of them for the return value 0), and the context after.
unfoldable pub fsm_pop_output : FsmContext → ℕ → Result (Bytes × FsmContext)
fsm_pop_output ctx max_size = elim (find_mark 0 ctx.output) [
  | none ↦ ok ([], ctx)
  | some last ↦
      guard (leb (last + 1 + 1) max_size) aborted
      >> ok (take (last + 1) ctx.output, record ctx { output = drop (last + 1) ctx.output })
]
