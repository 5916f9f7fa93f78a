-- ===== src/Vnet/Endpoints.antt =====
-- Both ends of a connection over the network stack: `vnet_listen_at` and `vnet_tcp_connect` of
-- src/vnet.c, and the addresses of the two interfaces.
use termtunnel.Base.{
  ℕ, List, Bool, Bytes, Option, if◌then◌else◌, Result, ◌%◌, ◌∷◌, suc, length, ◌≢◌, [], ok, fault,
  ◌==◌, ◌≡◌, none, aborted, ◌+◌, ap, arith, some, ◌-◌, refl, ◌>>◌, guard, ◌++◌, false, true,
}
use termtunnel.Portforward.{htons_bytes}
use termtunnel.Income.{StateMode, mode_server, mode_agent}

-- What `lwip_accept` returns: a connection, or a failure, which is logged.
pub data Accepted : Type 0 where
  connection : ℕ → Accepted
  accept_fails : Accepted

-- The loop of `vnet_listen_at`, which does not end, over the accepts so far: the threads that it
-- starts, each with its connection.
unfoldable pub listen_loop : List Accepted → List ℕ
listen_loop [] = []
listen_loop (connection sd ∷ more) = sd ∷ listen_loop more
listen_loop (accept_fails ∷ more) = listen_loop more

-- The port in the address that it binds, and the threads; `none` where it returns -1.
unfoldable pub vnet_listen_at :
    Bool → Bool → Bool → ℕ → List Accepted → Result (Option (Bytes × List ℕ))
unfolding listen_loop
vnet_listen_at false bound listens port accepts = ok none
vnet_listen_at true bound listens port accepts = do
  guard bound aborted
  guard listens aborted
  ok (some (htons_bytes port, listen_loop accepts))

-- What `vnet_tcp_connect` does with its socket.
pub data ConnectStep : Type 0 where
  set_nodelay set_keepalive : ConnectStep
  connect_port : Bytes → ConnectStep
  close_socket : ConnectStep

-- `vnet_setsocketdefaultopt`
abbrev pub vnet_setsocketdefaultopt : List ConnectStep
vnet_setsocketdefaultopt = set_nodelay ∷ set_keepalive ∷ []

-- `none` for a negative result; a socket that cannot be made fails the assertion.
unfoldable pub vnet_tcp_connect : Option ℕ → Bool → ℕ → Result (Option ℕ × List ConnectStep)
vnet_tcp_connect none connects port = fault aborted
vnet_tcp_connect (some s) connects port =
    let steps = vnet_setsocketdefaultopt ++ connect_port (htons_bytes port) ∷ [] in
    ok (if connects then (some s, steps) else (none, steps ++ close_socket ∷ []))

abbrev xor_one : ℕ → ℕ
xor_one n = if n % 2 == 0 then n + 1 else n - 1

-- The hardware address that `tapif_init` gives to the interface.
unfoldable pub hwaddr : StateMode → Bytes
hwaddr mode = elim mode [
  | mode_server ↦ 1 ∷ 2 ∷ 3 ∷ 4 ∷ 5 ∷ xor_one 7 ∷ []
  | _ ↦ 1 ∷ 2 ∷ 3 ∷ 1 ∷ 5 ∷ xor_one 7 ∷ []
]

-- The connections among the accepts.
abbrev pub connections : List Accepted → ℕ
connections [] = 0
connections (connection sd ∷ more) = suc (connections more)
connections (accept_fails ∷ more) = connections more

-- Each connection gets one thread, and failures pass.
pub length-listen_loop :
    (accepts : List Accepted) → length (listen_loop accepts) ≡ connections accepts
unfolding listen_loop
length-listen_loop [] = refl
length-listen_loop (connection sd ∷ more) = ap suc (length-listen_loop more)
length-listen_loop (accept_fails ∷ more) = length-listen_loop more

-- The two interfaces have different addresses.
pub hwaddr-differ : hwaddr mode_server ≢ hwaddr mode_agent
unfolding hwaddr
hwaddr-differ e = ground (arith, e)
