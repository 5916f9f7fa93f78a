-- ===== src/Income/Order.antt =====
-- What `uvloop_process_income` of src/pipe.c does with the frames of its queue.
use termtunnel.Base.{
  Bool, Bytes, ◌≡◌, List, true, [], ◌∷◌, arith, false, refl, ◌++◌, sym, append-nil, ◌∙◌,
  append_assoc,
}
use termtunnel.Income.{
  Income, StateMode, income_loop, uvloop_process_income, mode_server, mode_client, mode_agent,
  notify_all, vnet_notify_to_libuv,
}

-- The process sends what is in its queue: an agent, or a server that sees its agent.
abbrev pub IsSending : StateMode → Bool → Type 0
IsSending mode_server sees = sees ≡ true
IsSending _ sees = Unit

income_loop_sends :
    (mode : StateMode) (sees : Bool) (q : List Bytes)
    → IsSending mode sees
    → income_loop mode sees q ≡ (q, [], true)
unfolding income_loop
income_loop_sends mode sees [] h = refl
income_loop_sends mode_server sees (f ∷ q) h =
    ground (arith, income_loop_sends mode_server sees q h)
income_loop_sends mode_client sees (f ∷ q) h =
    ground (arith, income_loop_sends mode_client sees q h)
income_loop_sends mode_agent sees (f ∷ q) h = ground (arith, income_loop_sends mode_agent sees q h)

notified_queue :
    (s : Income) (fs : List Bytes)
    → s.dry ≡ true
    → ((notify_all s fs).queue ≡ s.queue ++ fs) × ((notify_all s fs).dry ≡ true)
unfolding notify_all vnet_notify_to_libuv
notified_queue s [] d = (sym (append-nil s.queue), d)
notified_queue s (f ∷ fs) d =
    let (q, d') = notified_queue (vnet_notify_to_libuv s f) fs refl in
    (q ∙ append_assoc s.queue (f ∷ []) fs, d')

notified_all :
    (s : Income) (f : Bytes) (fs : List Bytes)
    → ((notify_all s (f ∷ fs)).queue ≡ s.queue ++ f ∷ fs) × ((notify_all s (f ∷ fs)).dry ≡ true)
unfolding notify_all vnet_notify_to_libuv
notified_all s f fs =
    let (q, d) = notified_queue (vnet_notify_to_libuv s f) fs refl in
    (q ∙ append_assoc s.queue (f ∷ []) fs, d)

-- In an agent, or in a server that sees its agent: at least one frame given to
-- `vnet_notify_to_libuv`, one by one, and then one callback. Whatever the flag said before, all of them are sent behind those already waiting, each once and in
-- order, and the queue is empty.
pub process_income_sends :
    (mode : StateMode) (sees : Bool) (s : Income) (f : Bytes) (fs : List Bytes)
    → IsSending mode sees
    → uvloop_process_income mode sees (notify_all s (f ∷ fs))
      ≡ (s.queue ++ f ∷ fs, record { queue = []; dry = false; notified = true })
unfolding uvloop_process_income
process_income_sends mode sees s f fs h =
    let (q, d) = notified_all s f fs in
    ground (arith, q, d, income_loop_sends mode sees (s.queue ++ f ∷ fs) h)

-- A server that does not see its agent takes one frame off the queue at each callback and sends
-- nothing: the frame is lost.
pub process_income_loses :
    (s : Income) (f : Bytes) (q : List Bytes)
    → s.dry ≡ true
    → s.queue ≡ f ∷ q
    → ((uvloop_process_income mode_server false s).0 ≡ [])
      × ((uvloop_process_income mode_server false s).1.queue ≡ q)
      × ((uvloop_process_income mode_server false s).1.dry ≡ true)
unfolding uvloop_process_income income_loop
process_income_loses s f q d e = ground arith
