-- ===== src/Server.antt =====
-- The server's side of src/pipe.c: what it does with a packet of the client, with a frame of the
-- agent and with a read of the terminal. `malloc` succeeds, and `uv_write` takes what it is given.
pub mod Marks
pub mod Reads
pub mod Relay
pub mod Sizes
pub mod Quiet
pub mod Greets
pub mod Exit
pub mod Start
pub mod Tty
use termtunnel.Base.{
  ℕ, Bytes, Bool, List, Option, false, if◌then◌else◌, true, [], ◌∷◌, Result, ◌++◌, some, ◌==◌,
  bytes_eq, suc, fault, ok, codes, ltb, out_of_fuel, none, ◌>>=◌, length, ◌&&◌, take, ◌*◌, ◌+◌,
  drop, zero,
}
use termtunnel.Base64.{Base64}
use termtunnel.Command
use termtunnel.Income.{mode_agent}
use termtunnel.Command.{file_exchange, port_forward}
use termtunnel.Income.{StateMode, mode_server}
use termtunnel.Fsm.{FsmContext, fsm_pop_output}
use termtunnel.Intent.{
  FileExchange, PortForward, trans_mode_recv_file, forward_dynamic_port_map, trans_mode_send_file,
  forward_static_port_map, read_file_exchange, forward_static_port_map_listen_on_agent,
  read_port_forward,
}
use termtunnel.Words.{le_bytes}
use termtunnel.Packet.{Packet}
use termtunnel.Fsm.Feed.{feed}

-- The threads that `vnet_init` of src/vnet.c starts.
pub data Service : Type 0 where
  file_receiver file_sender agentcall_server portforward_static_server socksproxy_server : Service

-- What the server does, in order: packets for the client, bytes for the terminal of the agent,
-- frames for the network stack, the start of the stack, and requests that other threads serve.
pub data ServerAction : Type 0 where
  to_cli : ℕ → Bytes → ServerAction
  to_tty : Bytes → ServerAction
  vnet_income : Bytes → ServerAction
  add_notify : ServerAction
  start_service : Service → ServerAction
  resize_pty : Bytes → ServerAction
  bootstrap_args : ServerAction
  file_recv_start : Bytes → Bytes → ServerAction
  file_send_start : Bytes → Bytes → ServerAction
  portforward_static_start : Bytes → ℕ → Bytes → ℕ → ServerAction
  call_agent_forward : Bytes → ℕ → Bytes → ℕ → ServerAction

pub record Server : Type 0 where
  pub sees_agent : Bool  -- `server_see_agent_is_repl`
  pub added : Bool  -- the static of `libuv_add_vnet_notify`
  pub init_done : Bool  -- of src/vnet.c
  pub task_count : ℕ  -- `task_counter` of src/state.c, as a pattern of 32 bits

abbrev pub virtual_mtu : ℕ
virtual_mtu = 800

-- `libuv_add_vnet_notify` where `uv_async_init` succeeds.
unfoldable pub libuv_add_vnet_notify : Server → Server × List ServerAction
libuv_add_vnet_notify s = if s.added then (s, []) else (record s { added = true }, add_notify ∷ [])

-- `vnet_init` in a process of this mode.
unfoldable pub vnet_init : StateMode → Server → Server × List ServerAction
vnet_init mode s = if s.init_done then (s, []) else (
  record s { init_done = true },
  elim mode [
    | mode_agent ↦
        start_service file_receiver
        ∷ start_service file_sender
        ∷ start_service agentcall_server
        ∷ start_service portforward_static_server
        ∷ start_service socksproxy_server
        ∷ []
    | _ ↦ start_service portforward_static_server ∷ start_service socksproxy_server ∷ []
  ],
)

-- Both, behind the packet that tells the client.
abbrev pub greet : Server → Bytes → Server × List ServerAction
greet s flag =
    let a = libuv_add_vnet_notify (record s { sees_agent = true }) in
    let b = vnet_init mode_server a.0 in (b.0, to_cli Command.enter_repl flag ∷ (a.1 ++ b.1))

-- A decoded frame of at least one byte goes to `vnet_data_income`.
unfoldable pub server_handle_coded : Option Bytes → List ServerAction
server_handle_coded none = []
server_handle_coded (some []) = []
server_handle_coded (some (a ∷ r)) = vnet_income (a ∷ r) ∷ []

abbrev pub first_is : ℕ → Bytes → Bool
first_is b [] = false
first_is b (a ∷ r) = a == b

unfoldable pub server_handle_green_packet : Base64 → Server → Bytes → Server × List ServerAction
unfolding libuv_add_vnet_notify vnet_init server_handle_coded
server_handle_green_packet codec s buf =
    if bytes_eq buf (codes "ONESHOT!")
    then greet s (le_bytes 8 1)
    else if bytes_eq buf (codes "MAGIC!")
    then greet s []
    else if bytes_eq buf (codes "PING!")
    then (s, to_cli Command.tty_ping [] ∷ [])
    else if bytes_eq buf (codes "NOP!")
    then (s, [])
    else if ltb 1 (length buf) && first_is b'B' buf
    then (s, server_handle_coded (codec.base64_decode (drop 1 buf)))
    else (s, [])

-- Frame after frame, each handed on with its `!`.
unfoldable pub handle_all : Base64 → Server → List Bytes → Server × List ServerAction
handle_all codec s [] = (s, [])
handle_all codec s (f ∷ fs) =
    let done = server_handle_green_packet codec s (f ++ b'!' ∷ []) in
    let rest = handle_all codec done.0 fs in (rest.0, done.1 ++ rest.1)

-- The frames for the network stack among the actions, in order.
abbrev pub vnet_part : List ServerAction → List Bytes
vnet_part [] = []
vnet_part (vnet_income b ∷ more) = b ∷ vnet_part more
vnet_part (_ ∷ more) = vnet_part more

-- `send_tty_to_client`: blocks of 512 bytes, on fuel for the bytes left.
unfoldable pub send_tty_to_client : ℕ → Bytes → List ServerAction
send_tty_to_client zero buf = []
send_tty_to_client (suc fuel) [] = []
send_tty_to_client (suc fuel) (a ∷ r) =
    let n = if ltb 512 (length (a ∷ r)) then 512 else length (a ∷ r) in
    to_cli Command.tty_plain_data (take n (a ∷ r)) ∷ send_tty_to_client fuel (drop n (a ∷ r))

-- The machine and the server, with what the server has done.
pub record TtyReply : Type 0 where
  pub fsm : FsmContext
  pub server : Server
  pub actions : List ServerAction

-- The loop of `common_read_tty` that takes frames off the machine, on fuel.
unfoldable pub pop_loop : ℕ → Base64 → FsmContext → Server → Result TtyReply
pop_loop zero codec fsm s = fault out_of_fuel
pop_loop (suc fuel) codec fsm s = fsm_pop_output fsm (5 * virtual_mtu) >>= λ p. elim p.0 [
  | [] ↦ ok (record { fsm = p.1; server = s; actions = [] })
  | a ∷ r ↦
      let done = server_handle_green_packet codec s (a ∷ r) in
      pop_loop fuel codec p.1 done.0 >>= λ t. ok (record t { actions = done.1 ++ t.actions })
]

-- `common_read_tty` on a read that did not fail.
unfoldable pub common_read_tty : Base64 → FsmContext → Server → Bytes → Result TtyReply
common_read_tty codec fsm s [] = ok (record { fsm = fsm; server = s; actions = [] })
common_read_tty codec fsm s (a ∷ r) = do
  c ← feed fsm (a ∷ r)
  t ← pop_loop (length c.output + 1) codec c s
  ok (record t {
    actions =
        t.actions
        ++ (if t.server.sees_agent then [] else send_tty_to_client (length (a ∷ r)) (a ∷ r));
  })

-- Read after read.
unfoldable pub tty_reads : Base64 → FsmContext → Server → List Bytes → Result TtyReply
tty_reads codec fsm s [] = ok (record { fsm = fsm; server = s; actions = [] })
tty_reads codec fsm s (x ∷ xs) = do
  r ← common_read_tty codec fsm s x
  t ← tty_reads codec r.fsm r.server xs
  ok (record t { actions = r.actions ++ t.actions })

-- `send_data_to_agent`
unfoldable pub send_data_to_agent : Bytes → ServerAction
send_data_to_agent buf = to_tty (buf ++ b'!' ∷ b'\n' ∷ [])

-- `send_base64binary_to_agent`
unfoldable pub send_base64binary_to_agent : Base64 → Bytes → List ServerAction
send_base64binary_to_agent codec buf = elim (codec.base64_encode buf) [
  | none ↦ []
  | some text ↦ send_data_to_agent (b'B' ∷ text) ∷ []
]

abbrev file_exchange_actions : FileExchange → List ServerAction
file_exchange_actions a =
    if a.trans_mode == trans_mode_recv_file
    then file_recv_start a.src_path a.dst_path ∷ []
    else if a.trans_mode == trans_mode_send_file
    then file_send_start a.src_path a.dst_path ∷ []
    else []

abbrev port_forward_actions : PortForward → List ServerAction
port_forward_actions a =
    if a.forward_type == forward_dynamic_port_map
    then []
    else if a.forward_type == forward_static_port_map
    then portforward_static_start a.src_host a.src_port a.dst_host a.dst_port ∷ []
    else if a.forward_type == forward_static_port_map_listen_on_agent
    then call_agent_forward a.src_host a.src_port a.dst_host a.dst_port
      ∷ to_cli Command.return (codes "bind done (guess)\n" ++ 0 ∷ [])
      ∷ []
    else []

unfoldable pub server_handle_client_packet :
    Server → ℕ → Bytes → Result (Server × List ServerAction)
unfolding send_data_to_agent
server_handle_client_packet s type buf =
    if type == Command.tty_plain_data
    then ok (s, to_tty buf ∷ [])
    else if type == Command.tty_win_resize
    then ok (s, resize_pty buf ∷ [])
    else if type == Command.get_args
    then ok (s, bootstrap_args ∷ [])
    else if type == Command.exit_repl
    then ok (record s { sees_agent = false }, send_data_to_agent (codes "EXIT") ∷ [])
    else if type == Command.tty_ping
    then ok (s, send_data_to_agent (codes "PING") ∷ [])
    else if type == Command.file_exchange
    then (read_file_exchange buf >>= λ a. ok (s, file_exchange_actions a))
    else if type == Command.get_running_task_count
    then ok (s, to_cli Command.return (le_bytes 4 s.task_count) ∷ [])
    else if type == Command.port_forward
    then (read_port_forward buf >>= λ a. ok (s, port_forward_actions a))
    else ok (s, [])

-- What `find_a_packet` hands on, packet after packet.
unfoldable pub serve_all : Server → List Packet → Result (Server × List ServerAction)
unfolding server_handle_client_packet
serve_all s [] = ok (s, [])
serve_all s (p ∷ ps) = do
  d ← server_handle_client_packet s p.type p.payload
  r ← serve_all d.0 ps
  ok (r.0, d.1 ++ r.1)

unfoldable pub server_init : Server
server_init = record { sees_agent = false; added = false; init_done = false; task_count = 0 }
