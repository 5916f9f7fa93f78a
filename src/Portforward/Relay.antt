-- ===== src/Portforward/Relay.antt =====
-- When each loop of the relay of src/portforward.c ends. The two loops share their descriptors: what
-- one does to them shows in the other as the results of its calls, whatever they are.
use termtunnel.Base.{Bytes, List, ◌≡◌, ◌∷◌, ◌++◌, [], ok, refl, All, suc, take, zero, map}
use termtunnel.Portforward.{
  Turn, bad_descriptor, select_failed, close_tunnel, idle, ready, RelayAction, to_socket, to_tunnel,
  close_socket, shutdown_tunnel, loop_lwipsocket_to_socket, loop_socket_to_lwipsocket, failed,
}
use termtunnel.Vnet.{wrote, arrived, closed, failed, write_failed}

-- A round after which a loop goes on: nothing is ready, or a read brings bytes and the write takes at
-- least one of them.
abbrev pub GoesOn : Turn → Type 0
GoesOn idle = Unit
GoesOn (ready (arrived (a ∷ b)) (wrote (suc k))) = Unit
GoesOn _ = ⊥

-- The writes of rounds, each with the bytes that it takes.
abbrev pub written : List Turn → List Bytes
written [] = []
written (ready (arrived b) (wrote k) ∷ ts) = take k b ∷ written ts
written (_ ∷ ts) = written ts

-- How a round ends a loop: the read fails or brings nothing, or it brings bytes and the write fails
-- or takes none of them.
pub data Stop : Type 0 where
  stop_read stop_write : Stop

abbrev pub Stops : Turn → Stop → Type 0
Stops (ready closed w) stop_read = Unit
Stops (ready (failed again) w) stop_read = Unit
Stops (ready (arrived []) w) stop_read = Unit
Stops (ready (arrived (a ∷ b)) write_failed) stop_write = Unit
Stops (ready (arrived (a ∷ b)) (wrote zero)) stop_write = Unit
Stops _ _ = ⊥

abbrev pub down_end : Stop → List RelayAction
down_end stop_read = close_socket ∷ []
down_end stop_write = shutdown_tunnel ∷ []

abbrev pub up_end : Stop → List RelayAction
up_end stop_read = shutdown_tunnel ∷ []
up_end stop_write = close_socket ∷ close_tunnel ∷ []

last_round :
    (t : Turn) (o : Stop) (us : List Turn)
    → Stops t o
    → (loop_lwipsocket_to_socket (t ∷ us) ≡ ok (down_end o))
      × (loop_socket_to_lwipsocket (t ∷ us) ≡ ok (up_end o))
unfolding loop_lwipsocket_to_socket loop_socket_to_lwipsocket
last_round idle o us h = absurd h
last_round bad_descriptor o us h = absurd h
last_round select_failed o us h = absurd h
last_round (ready closed w) stop_read us h = (refl, refl)
last_round (ready closed w) stop_write us h = absurd h
last_round (ready (failed again) w) stop_read us h = (refl, refl)
last_round (ready (failed again) w) stop_write us h = absurd h
last_round (ready (arrived []) w) stop_read us h = (refl, refl)
last_round (ready (arrived []) w) stop_write us h = absurd h
last_round (ready (arrived (a ∷ b)) write_failed) stop_read us h = absurd h
last_round (ready (arrived (a ∷ b)) write_failed) stop_write us h = (refl, refl)
last_round (ready (arrived (a ∷ b)) (wrote zero)) stop_read us h = absurd h
last_round (ready (arrived (a ∷ b)) (wrote zero)) stop_write us h = (refl, refl)
last_round (ready (arrived (a ∷ b)) (wrote (suc k))) o us h = absurd h

-- Either loop of the relay, for itself, on any results of its calls: rounds after which it goes on,
-- short writes included, then one in which a read or a write fails or brings nothing, and then any
-- rounds `us`. The loop passes on, in order, what the writes of the first rounds took; at that one
-- round it returns, whatever `us` would bring. The loop from the tunnel then has closed the socket,
-- or, if it was the write, shut the tunnel's connection down; the loop to the tunnel has shut that
-- connection down, or, if it was the write, closed both.
pub relay_lets_go :
    (ts : List Turn) (t : Turn) (o : Stop) (us : List Turn)
    → All GoesOn ts
    → Stops t o
    → (loop_lwipsocket_to_socket (ts ++ t ∷ us) ≡ ok (map to_socket (written ts) ++ down_end o))
      × (loop_socket_to_lwipsocket (ts ++ t ∷ us) ≡ ok (map to_tunnel (written ts) ++ up_end o))
unfolding loop_lwipsocket_to_socket loop_socket_to_lwipsocket
relay_lets_go [] t o us h e = last_round t o us e
relay_lets_go (idle ∷ ts) t o us h e = relay_lets_go ts t o us h.1 e
relay_lets_go (bad_descriptor ∷ ts) t o us h e = absurd h.0
relay_lets_go (select_failed ∷ ts) t o us h e = absurd h.0
relay_lets_go (ready closed v ∷ ts) t o us h e = absurd h.0
relay_lets_go (ready (failed again) v ∷ ts) t o us h e = absurd h.0
relay_lets_go (ready (arrived []) v ∷ ts) t o us h e = absurd h.0
relay_lets_go (ready (arrived (a ∷ b)) write_failed ∷ ts) t o us h e = absurd h.0
relay_lets_go (ready (arrived (a ∷ b)) (wrote zero) ∷ ts) t o us h e = absurd h.0
relay_lets_go (ready (arrived (a ∷ b)) (wrote (suc k)) ∷ ts) t o us h e =
    let (down, up) = relay_lets_go ts t o us h.1 e in (rw down refl, rw up refl)
