-- ===== src/Income.antt =====
-- The queue between the threads of the network stack and the event loop: `vnet_notify_to_libuv`,
-- `uvloop_process_income`, `push_data` and `timer_callback` of src/pipe.c. `malloc` succeeds, and
-- the queue of thirdparty/queue is a list.
pub mod Order
use termtunnel.Base.{List, Bytes, true, if◌then◌else◌, Bool, ◌++◌, ◌∷◌, not, false, [], ◌&&◌}

-- The values of src/state.h.
pub data StateMode : Type 0 where
  mode_client mode_agent mode_server : StateMode

pub record Income : Type 0 where
  pub queue : List Bytes
  pub dry : Bool  -- `data_income_notify.data`
  pub notified : Bool  -- `uv_async_send` has been called since the last callback

unfoldable pub vnet_notify_to_libuv : Income → Bytes → Income
vnet_notify_to_libuv s buf = record { queue = s.queue ++ buf ∷ []; dry = true; notified = true }

-- Frame after frame.
unfoldable pub notify_all : Income → List Bytes → Income
notify_all s [] = s
notify_all s (f ∷ fs) = notify_all (vnet_notify_to_libuv s f) fs

unfoldable pub push_data : Income → Income
push_data s = record s { dry = true; notified = true }

abbrev is_empty {ℓ} : {A : Type ℓ} → List A → Bool
is_empty [] = true
is_empty (x ∷ xs) = false

-- The part of `timer_callback` that reminds of the queue.
unfoldable pub timer_callback : Income → Income
timer_callback s = if not (is_empty s.queue) then push_data s else s

abbrev is_server : StateMode → Bool
is_server mode_server = true
is_server _ = false

-- The loop over the queue: the frames sent, what is left, and whether the loop ran to its end. A
-- server that does not see an agent returns with the frame already taken off the queue.
unfoldable pub income_loop : StateMode → Bool → List Bytes → List Bytes × List Bytes × Bool
income_loop mode sees [] = ([], [], true)
income_loop mode sees (f ∷ q) =
    let rest = income_loop mode sees q in
    if is_server mode && not sees then ([], q, false) else (f ∷ rest.0, rest.1, rest.2)

-- The callback: the frames handed to `send_base64binary_to_agent` or `write_binary_to_server`.
unfoldable pub uvloop_process_income : StateMode → Bool → Income → List Bytes × Income
uvloop_process_income mode sees s =
    let t = record s { notified = false } in
    let (sent, left, ended) = income_loop mode sees s.queue in
    if s.dry
    then (if ended
        then (sent, record { queue = left; dry = false; notified = true })
        else (sent, record t { queue = left }))
    else ([], t)
