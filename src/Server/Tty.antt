-- ===== src/Server/Tty.antt =====
-- `common_read_tty` of src/pipe.c over all reads of a terminal.
use termtunnel.Base.{
  ℕ, Bytes, length, List, Result, ◌<◌, ◌+◌, ◌≡◌, ok, ◌++◌, All, arith, suc, ap, ◌∷◌, ◌∙◌,
  append_assoc, [], lt→ltb, zero, refl,
}
use termtunnel.Base64.{Base64}
use termtunnel.Server.{
  Server, FsmContext, pop_loop, handle_all, TtyReply, server_handle_green_packet, ServerAction,
  send_tty_to_client, vnet_part, vnet_income, to_cli, to_tty, start_service, resize_pty,
  file_recv_start, file_send_start, portforward_static_start, call_agent_forward, add_notify,
  bootstrap_args,
}
use termtunnel.Fsm.{FsmContext, fsm_pop_output}
use termtunnel.Server.Marks.{marked}
use termtunnel.Fsm.Pop.{NoMark, fsm_pop_output-none, fsm_pop_output-some}

-- A frame that `fsm_pop_output` has room for: `5 * VIR_MTU` bytes with its `!` and a NUL.
abbrev pub IsShort : Bytes → Type 0
IsShort f = length f + 1 < 4000

abbrev PopsAll : Base64 → FsmContext → Server → List Bytes → Bytes → Result TtyReply → Type 0
PopsAll codec fsm s fs r m =
    m
    ≡ ok (record {
      fsm = record fsm { output = r };
      server = (handle_all codec s fs).0;
      actions = (handle_all codec s fs).1;
    })

-- One round of the loop that takes a frame off.
pop_loop_more :
    (f : Bytes) (fuel : ℕ) (codec : Base64) (fsm next : FsmContext) (s : Server) {t : TtyReply}
    → fsm_pop_output fsm 4000 ≡ ok (f ++ b'!' ∷ [], next)
    → pop_loop fuel codec next (server_handle_green_packet codec s (f ++ b'!' ∷ [])).0 ≡ ok t
    → pop_loop (suc fuel) codec fsm s
      ≡ ok (record t {
        actions = (server_handle_green_packet codec s (f ++ b'!' ∷ [])).1 ++ t.actions;
      })
unfolding pop_loop
pop_loop_more [] fuel codec fsm next s e l = rw (e, l)
pop_loop_more (a ∷ f) fuel codec fsm next s e l = rw (e, l)

pub pop_loop_frames :
    (fuel : ℕ) (codec : Base64) (fsm : FsmContext) (s : Server) (fs : List Bytes) (r : Bytes)
    → length fs < fuel
    → fsm.output ≡ marked fs ++ r
    → All NoMark fs
    → All IsShort fs
    → NoMark r
    → PopsAll codec fsm s fs r (pop_loop fuel codec fsm s)
unfolding pop_loop handle_all
pop_loop_frames zero codec fsm s fs r h e c d n = absurd (omega arith)
pop_loop_frames (suc fuel) codec fsm s [] r h e c d n =
    rw (fsm_pop_output-none fsm 4000 (rw e n))
      (ap (λ o. ok (record { fsm = record fsm { output = o }; server = s; actions = [] })) e)
pop_loop_frames (suc fuel) codec fsm s (f ∷ fs) r h e c d n =
    let e' : fsm.output ≡ f ++ b'!' ∷ (marked fs ++ r) = e ∙ append_assoc f (b'!' ∷ marked fs) r in
    let popped = fsm_pop_output-some fsm 4000 f (marked fs ++ r) e' c.0 in
    let next = record fsm { output = marked fs ++ r } in
    let done = server_handle_green_packet codec s (f ++ b'!' ∷ []) in
    let taken = popped ∙ rw (lt→ltb (length f + 1) 4000 d.0) in
    pop_loop_more f fuel codec fsm next s taken
      (pop_loop_frames fuel codec next done.0 fs r (omega arith) refl c.1 d.1 n)

-- What `handle_all` does for two lists of frames, one after the other.
pub handle_all-append :
    (codec : Base64) (s : Server) (fs gs : List Bytes)
    → handle_all codec s (fs ++ gs) ≡ (
      (handle_all codec (handle_all codec s fs).0 gs).0,
      (handle_all codec s fs).1 ++ (handle_all codec (handle_all codec s fs).0 gs).1,
    )
unfolding handle_all
handle_all-append codec s [] gs = refl
handle_all-append codec s (f ∷ fs) gs =
    let done = server_handle_green_packet codec s (f ++ b'!' ∷ []) in
    rw (handle_all-append codec done.0 fs gs, append_assoc done.1) refl

pub vnet_part-append :
    (xs ys : List ServerAction) → vnet_part (xs ++ ys) ≡ vnet_part xs ++ vnet_part ys
vnet_part-append [] ys = refl
vnet_part-append (vnet_income b ∷ xs) ys = ap (◌∷◌ b) (vnet_part-append xs ys)
vnet_part-append (to_cli n b ∷ xs) ys = vnet_part-append xs ys
vnet_part-append (to_tty b ∷ xs) ys = vnet_part-append xs ys
vnet_part-append (add_notify ∷ xs) ys = vnet_part-append xs ys
vnet_part-append (start_service b ∷ xs) ys = vnet_part-append xs ys
vnet_part-append (resize_pty b ∷ xs) ys = vnet_part-append xs ys
vnet_part-append (bootstrap_args ∷ xs) ys = vnet_part-append xs ys
vnet_part-append (file_recv_start a b ∷ xs) ys = vnet_part-append xs ys
vnet_part-append (file_send_start a b ∷ xs) ys = vnet_part-append xs ys
vnet_part-append (portforward_static_start a b c d ∷ xs) ys = vnet_part-append xs ys
vnet_part-append (call_agent_forward a b c d ∷ xs) ys = vnet_part-append xs ys

-- The plain copy for the client carries nothing for the network stack.
pub vnet_part-send_tty_to_client : (n : ℕ) (b : Bytes) → vnet_part (send_tty_to_client n b) ≡ []
unfolding send_tty_to_client
vnet_part-send_tty_to_client zero b = refl
vnet_part-send_tty_to_client (suc n) [] = refl
vnet_part-send_tty_to_client (suc n) (a ∷ r) = vnet_part-send_tty_to_client n _
