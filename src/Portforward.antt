-- ===== src/Portforward.antt =====
-- Forwarded ports: src/portforward.c. Memory and threads are there where a list of events does not
-- say otherwise, a connection to the other side is made, and sockets outside are made.
pub mod Dials
pub mod Relay
pub mod Listen
use termtunnel.Base.{
  ℕ, Bytes, Result, List, ◌/◌, Bool, ◌++◌, Option, [], fault, ◌%◌, ◌∷◌, if◌then◌else◌, true, false,
  codes, out_of_bounds, out_of_fuel, ◌>>=◌, leb, suc, ok, aborted, length, none, ◌==◌, take, some,
  drop, zero,
}
use termtunnel.Vnet.{
  SocketRead, SocketWrite, wrote, write_failed, unread, read_chunk_size, arrived, closed, failed,
}
use termtunnel.Socks.{
  Target, Dialed, ProxyAction, no_address, refused, connected, host_name, dial, relay, close_client,
  ntohs,
}
use termtunnel.Intent.{host_max}
use termtunnel.Income.{StateMode, mode_agent}

-- The loop that reads the host, with the places left in the buffer: it has no test for its end.
unfoldable pub host_loop :
    ℕ → Bytes → Bytes → List SocketRead → Result (Option Bytes × List SocketRead)
host_loop zero kept (a ∷ b) rs = fault out_of_bounds
host_loop (suc room) kept (a ∷ b) rs =
    let rest = host_loop room (kept ++ a ∷ []) b rs in
    if a == 0 then ok (some kept, unread b rs) else rest
host_loop room kept [] [] = fault out_of_fuel
host_loop room kept [] (closed ∷ rs) = ok (none, rs)
host_loop room kept [] (failed again ∷ rs) = ok (none, rs)
host_loop room kept [] (arrived [] ∷ rs) = ok (none, rs)
host_loop room kept [] (arrived (a ∷ b) ∷ rs) = host_loop room kept (a ∷ b) rs

-- The loop that reads the port: every read asks for two bytes, behind those that are there.
unfoldable pub port_loop : Bytes → List SocketRead → Result (Option Bytes × List SocketRead)
port_loop kept [] = fault out_of_fuel
port_loop kept (closed ∷ rs) = ok (none, rs)
port_loop kept (failed again ∷ rs) = ok (none, rs)
port_loop kept (arrived [] ∷ rs) = ok (none, rs)
port_loop kept (arrived (a ∷ b) ∷ rs) =
    let rest = port_loop (kept ++ a ∷ []) rs in
    let all = kept ++ take 2 (a ∷ b) in
    if leb 2 (length all) then ok (some all, unread (drop 2 (a ∷ b)) rs) else rest

-- `portforward_static_server_request`, and what is left for the relay.
unfoldable pub portforward_static_server_request :
    (Target → Dialed) → List SocketRead → Result (List ProxyAction × List SocketRead)
unfolding host_loop port_loop
portforward_static_server_request world reads = host_loop read_chunk_size [] [] reads >>= λ h.
    elim h.0 [
      | none ↦ ok (close_client ∷ [], h.1)
      | some host ↦ port_loop [] h.1 >>= λ p. elim p.0 [
        | none ↦ ok (close_client ∷ [], p.1)
        | some bytes ↦
            let target = host_name host (ntohs bytes) in
            ok (
              dial target ∷ elim (world target) [
                | no_address ↦ close_client ∷ []
                | refused text ↦ close_client ∷ []
                | connected ↦ relay (some target) ∷ close_client ∷ []
              ],
              p.1,
            )
      ]
    ]

-- What a round of a relay's loop meets: `select` times out or is interrupted, it has a descriptor
-- that is closed, it fails in another way, or there is a read of at most `READ_CHUNK_SIZE` bytes
-- and, if it brings some, a write of them.
pub data Turn : Type 0 where
  idle : Turn
  bad_descriptor : Turn
  select_failed : Turn
  ready : SocketRead → SocketWrite → Turn

-- What a relay does with the socket and with the connection of the network stack.
pub data RelayAction : Type 0 where
  to_socket : Bytes → RelayAction
  to_tunnel : Bytes → RelayAction
  close_socket : RelayAction
  close_tunnel : RelayAction
  shutdown_tunnel : RelayAction

-- One loop for itself. The other one works on the same two descriptors: what it does to them (it may
-- close the socket, which another thread's descriptor may then replace) shows in the rounds, as the
-- results of this loop's calls. The rest of what was read is dropped when a write is short.
unfoldable pub loop_lwipsocket_to_socket : List Turn → Result (List RelayAction)
loop_lwipsocket_to_socket [] = fault out_of_fuel
loop_lwipsocket_to_socket (idle ∷ ts) = loop_lwipsocket_to_socket ts
loop_lwipsocket_to_socket (bad_descriptor ∷ ts) = fault aborted
loop_lwipsocket_to_socket (select_failed ∷ ts) = fault aborted
loop_lwipsocket_to_socket (ready closed w ∷ ts) = ok (close_socket ∷ [])
loop_lwipsocket_to_socket (ready (failed again) w ∷ ts) = ok (close_socket ∷ [])
loop_lwipsocket_to_socket (ready (arrived []) w ∷ ts) = ok (close_socket ∷ [])
loop_lwipsocket_to_socket (ready (arrived (a ∷ b)) write_failed ∷ ts) = ok (shutdown_tunnel ∷ [])
loop_lwipsocket_to_socket (ready (arrived (a ∷ b)) (wrote zero) ∷ ts) = ok (shutdown_tunnel ∷ [])
loop_lwipsocket_to_socket (ready (arrived (a ∷ b)) (wrote (suc k)) ∷ ts) =
    loop_lwipsocket_to_socket ts >>= λ more. ok (to_socket (take (suc k) (a ∷ b)) ∷ more)

-- With a descriptor that is closed, this loop ends and closes nothing.
unfoldable pub loop_socket_to_lwipsocket : List Turn → Result (List RelayAction)
loop_socket_to_lwipsocket [] = fault out_of_fuel
loop_socket_to_lwipsocket (idle ∷ ts) = loop_socket_to_lwipsocket ts
loop_socket_to_lwipsocket (bad_descriptor ∷ ts) = ok []
loop_socket_to_lwipsocket (select_failed ∷ ts) = fault aborted
loop_socket_to_lwipsocket (ready closed w ∷ ts) = ok (shutdown_tunnel ∷ [])
loop_socket_to_lwipsocket (ready (failed again) w ∷ ts) = ok (shutdown_tunnel ∷ [])
loop_socket_to_lwipsocket (ready (arrived []) w ∷ ts) = ok (shutdown_tunnel ∷ [])
loop_socket_to_lwipsocket (ready (arrived (a ∷ b)) write_failed ∷ ts) =
    ok (close_socket ∷ close_tunnel ∷ [])
loop_socket_to_lwipsocket (ready (arrived (a ∷ b)) (wrote zero) ∷ ts) =
    ok (close_socket ∷ close_tunnel ∷ [])
loop_socket_to_lwipsocket (ready (arrived (a ∷ b)) (wrote (suc k)) ∷ ts) =
    loop_socket_to_lwipsocket ts >>= λ more. ok (to_tunnel (take (suc k) (a ∷ b)) ∷ more)

-- What a connection to a forwarded port does on this side.
pub data PipeAction : Type 0 where
  vnet_tcp_connect : ℕ → PipeAction
  vnet_send : Bytes → PipeAction
  pipe_lwip_socket_and_socket_pair : PipeAction
  close_local : PipeAction
  lwip_close : PipeAction

abbrev pub port_forward_static_service_port : ℕ
port_forward_static_service_port = 7000

abbrev pub socks5_port : ℕ
socks5_port = 1080

-- `htons` of a port, in memory.
abbrev pub htons_bytes : ℕ → Bytes
htons_bytes port = port / 256 % 256 ∷ port % 256 ∷ []

-- The fields `host`, as a C string, and `port` of `port_listen_t`.
unfoldable pub portforward_static_server_pipe : Bytes → ℕ → List PipeAction
portforward_static_server_pipe host port =
    vnet_tcp_connect port_forward_static_service_port
    ∷ vnet_send (host ++ 0 ∷ [])
    ∷ vnet_send (htons_bytes port)
    ∷ pipe_lwip_socket_and_socket_pair
    ∷ close_local
    ∷ lwip_close
    ∷ []

unfoldable pub portforward_transparent_server_pipe : List PipeAction
portforward_transparent_server_pipe =
    vnet_tcp_connect socks5_port ∷ pipe_lwip_socket_and_socket_pair ∷ close_local ∷ lwip_close ∷ []

-- What an `accept` and what comes with it gives.
pub data Accept : Type 0 where
  accept_failed : Accept
  no_memory : Accept
  no_thread : Accept
  started : Accept

pub data ListenAction : Type 0 where
  set_running_task_changed : Bool → ListenAction
  close_new : ListenAction
  worker : List PipeAction → ListenAction

-- The loop of `portforward_service_handler`, which does not end, over the accepts so far. Port 0
-- stands for the proxy.
unfoldable pub accept_loop : Bytes → ℕ → List Accept → List ListenAction
unfolding portforward_static_server_pipe portforward_transparent_server_pipe
accept_loop host port [] = []
accept_loop host port (accept_failed ∷ more) = accept_loop host port more
accept_loop host port (no_memory ∷ more) = close_new ∷ accept_loop host port more
accept_loop host port (no_thread ∷ more) = close_new ∷ accept_loop host port more
accept_loop host port (started ∷ more) =
    (if leb host_max (length host)
      then close_new
      else worker (
          if port == 0
          then portforward_transparent_server_pipe
          else portforward_static_server_pipe host port))
    ∷ accept_loop host port more

unfoldable pub portforward_service_handler : Bytes → ℕ → List Accept → List ListenAction
unfolding accept_loop
portforward_service_handler host port accepts =
    set_running_task_changed true ∷ accept_loop host port accepts

-- How far `portforward_static_start` gets.
pub data Listening : Type 0 where
  socket_failed bind_failed listen_failed malloc_failed listening : Listening

-- `bind` and `listen` at a host and a port, a packet `COMMAND_RETURN` for the client, `close` of
-- the socket, and the thread that serves it.
pub data StartAction : Type 0 where
  bind_at : Bytes → ℕ → StartAction
  listen_at : ℕ → StartAction
  command_return : Bytes → StartAction
  close_listener : StartAction
  service : Bytes → ℕ → StartAction

abbrev pub not_agent : StateMode → Bool
not_agent mode_agent = false
not_agent _ = true

-- `strdup` of a text with the `sizeof` of it.
abbrev pub message : Bytes → StartAction
message text = command_return (text ++ 10 ∷ 0 ∷ [])

-- What follows a socket.
abbrev pub start_on : StateMode → Bytes → ℕ → Listening → List StartAction
start_on mode dst_host dst_port socket_failed = []
start_on mode dst_host dst_port bind_failed =
    (if not_agent mode then message (codes "bind local port error") ∷ [] else [])
    ++ close_listener ∷ []
start_on mode dst_host dst_port listen_failed =
    listen_at 20 ∷ (if not_agent mode then message (codes "listen error") ∷ [] else [])
    ++ close_listener ∷ []
start_on mode dst_host dst_port malloc_failed = listen_at 20 ∷ close_listener ∷ []
start_on mode dst_host dst_port listening =
    listen_at 20
    ∷ (if leb host_max (length dst_host)
        then close_listener ∷ []
        else (if not_agent mode then message (codes "bind local port done") ∷ [] else [])
          ++ service dst_host dst_port ∷ [])

-- An agent tells only that there is no socket.
unfoldable pub portforward_static_start :
    StateMode → Bytes → ℕ → Bytes → ℕ → Listening → List StartAction
portforward_static_start mode src_host src_port dst_host dst_port socket_failed =
    message (codes "local socket error") ∷ []
portforward_static_start mode src_host src_port dst_host dst_port o =
    bind_at src_host src_port ∷ start_on mode dst_host dst_port o
