-- ===== src/Fsm/Sizes.antt =====
-- The int fields of the machine, src/fsm.h: how large they can get, in the bytes that it is given.
use termtunnel.Base.{
  ℕ, Bytes, List, length, ◌+◌, ◌-◌, ◌*◌, ◌≤◌, ◌<◌, ◌≡◌, ◌∷◌, [], arith, ok, get_or, flatten,
  get_elem?-eq-some, length-append, length-drop, inl, inr, Result, ◌>>=◌, fault, zero, suc,
  Bool-cases, ltb, ltb→lt, ◌^◌, ltb→le, refl,
}
use termtunnel.Fsm.{
  FsmState, plaintext, escape_enter, csi_enter, csi_arg, csi_exit, csi_other, FsmContext, current,
  fsm_append_output, handle_csi_other, handle_plaintext, handle_escape_enter, handle_csi_enter,
  handle_csi_arg, handle_csi_exit, fsm_gc, handle, fsm_enter, fsm_init, fsm_append_input, fsm_loop,
  fsm_run, event_csi_callback, csi_digit,
}
use termtunnel.Fsm.Valid.{IsValid, Holds, fsm_append_input-ok}
use termtunnel.Fsm.Run.{IsIdle, loop_at_more, loop_at_end}
use termtunnel.Fsm.Feed.{feed}

-- `argc` counts the separators, and past the last parameter one more.
abbrev behind_args : FsmState → ℕ
behind_args csi_arg = 0
behind_args _ = 1

behind_args_le : (s : FsmState) → behind_args s ≤ 1
behind_args_le plaintext = omega arith
behind_args_le escape_enter = omega arith
behind_args_le csi_enter = omega arith
behind_args_le csi_arg = omega arith
behind_args_le csi_exit = omega arith
behind_args_le csi_other = omega arith

-- The sizes of the machine, in bytes and calls so far.
pub record IsSized (n : ℕ) (c : FsmContext) : Type 0 where
  pub input_len : length c.input ≤ n
  pub output_len : length c.output + (length c.input - c.offset) ≤ n
  pub input_room : c.input_cap ≤ 2 * n + 1024
  pub output_room : c.output_cap ≤ 2 * n + 1024
  pub calls : c.run_count ≤ n
  pub cur_low : c.csi.cur + (length c.input - c.offset) ≤ n
  pub argc_le : c.csi.argc ≤ c.csi.cur + behind_args c.state

pub handle-IsSized :
    (n : ℕ) (s : FsmState) (c : FsmContext)
    → IsSized n c
    → c.offset < length c.input
    → c.state ≡ s
    → Holds (IsSized n) (handle s c)
unfolding handle_csi_other handle_plaintext handle_escape_enter handle_csi_enter handle_csi_arg
    handle_csi_exit event_csi_callback current fsm_append_output csi_digit
handle-IsSized n plaintext c v h e =
    let a = get_or c.input c.offset 0 in
    ground (
      arith,
      get_elem?-eq-some c.offset c.input 0 h,
      length-append c.output (a ∷ []),
      v.input_len,
      v.output_len,
      v.input_room,
      v.output_room,
      v.calls,
    )
handle-IsSized n escape_enter c v h e = ground arith
handle-IsSized n csi_enter c v h e = ground arith
handle-IsSized n csi_arg c v h e = ground arith
handle-IsSized n csi_exit c v h e = ground arith
handle-IsSized n csi_other c v h e = ground arith

next_IsSized :
    (n : ℕ) (r : Result FsmContext) (next : FsmContext → Result FsmContext)
    → ((d : FsmContext) → IsSized n d → Holds (IsSized n) (next d))
    → Holds (IsSized n) r
    → Holds (IsSized n) (r >>= next)
next_IsSized n (ok d) next h w = h d w
next_IsSized n (fault x) next h w = tt

fsm_loop-IsSized : (fuel n : ℕ) (c : FsmContext) → IsSized n c → Holds (IsSized n) (fsm_loop fuel c)
unfolding fsm_loop
fsm_loop-IsSized zero n c v = tt
fsm_loop-IsSized (suc fuel) n c v = elim (Bool-cases (ltb c.offset (length c.input))) [
  | inl more ↦ rw (loop_at_more fuel c (ltb→lt _ _ more)) (
      next_IsSized n (handle c.state c) (λ d. fsm_loop fuel d) (fsm_loop-IsSized fuel n)
        (handle-IsSized n c.state c v (ltb→lt _ _ more) refl))
  | inr end ↦ rw (loop_at_end fuel c (ltb→le _ _ end)) v
]

pub fsm_enter-IsSized :
    (n m : ℕ) (c : FsmContext) → n < m → IsValid c → IsSized n c → IsSized m (fsm_enter c)
unfolding fsm_enter fsm_gc
fsm_enter-IsSized n m c l v w = ground (arith, length-drop c.processed c.input)

pub append-IsSized :
    (n : ℕ) (c : FsmContext) (bytes : Bytes)
    → IsSized n c
    → Holds (IsSized (n + length bytes)) (fsm_append_input c bytes)
unfolding fsm_append_input
append-IsSized n c bytes v = ground (arith, length-append c.input bytes)

pub feed-IsSized :
    (n : ℕ) (c : FsmContext) (bytes : Bytes)
    → IsIdle c
    → IsSized n c
    → Holds (IsSized (n + (length bytes + 1))) (feed c bytes)
unfolding feed fsm_run
feed-IsSized n c bytes h w =
    let (d, done, v, shape) = fsm_append_input-ok c bytes h.valid in
    let m = n + (length bytes + 1) in
    let sized : IsSized (n + length bytes) d = rw done at (append-IsSized n c bytes w) in
    rw done (
      fsm_loop-IsSized _ m (fsm_enter d)
        (fsm_enter-IsSized (n + length bytes) m d (omega arith) v sized))

-- The int fields are below 2^31.
pub record InRange (c : FsmContext) : Type 0 where
  pub run_count : c.run_count < 2 ^ 31
  pub processed : c.processed < 2 ^ 31
  pub offset : c.offset < 2 ^ 31
  pub input_size : length c.input < 2 ^ 31
  pub input_cap : c.input_cap < 2 ^ 31
  pub output_size : length c.output < 2 ^ 31
  pub output_cap : c.output_cap < 2 ^ 31
  pub argc : c.csi.argc < 2 ^ 31
  pub cur : c.csi.cur < 2 ^ 31

-- The bytes and calls that some reads add.
abbrev pub load : List Bytes → ℕ
load xs = length xs + length (flatten xs)

pub IsSized-InRange : (n : ℕ) (c : FsmContext) → IsValid c → IsSized n c → n ≤ 2 ^ 29 → InRange c
IsSized-InRange n c h w l = record {
  run_count = omega (arith, w.calls);
  processed = omega (arith, h.processed_in, w.input_len);
  offset = omega (arith, h.offset_le, w.input_len);
  input_size = omega (arith, w.input_len);
  input_cap = omega (arith, w.input_room);
  output_size = omega (arith, w.output_len);
  output_cap = omega (arith, w.output_room);
  argc = omega (arith, w.argc_le, w.cur_low, behind_args_le c.state);
  cur = omega (arith, w.cur_low);
}

pub fsm_init-IsSized : IsSized 0 fsm_init
unfolding fsm_init
fsm_init-IsSized = ground arith
