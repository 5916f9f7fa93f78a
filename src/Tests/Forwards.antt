-- ===== src/Tests/Forwards.antt =====
-- Forwarded ports.
use termtunnel.Base.{
  Bytes, List, codes, some, ◌∷◌, ◌≡◌, [], ok, false, ◌++◌, arith, true, refl, ◌+◌, replicate,
}
use termtunnel.Socks.{Target, Dialed, connected}
use termtunnel.Portforward.{
  bind_at, listen_at, portforward_static_server_pipe, loop_lwipsocket_to_socket,
  loop_socket_to_lwipsocket, close_socket, shutdown_tunnel, ready, idle, portforward_static_start,
  portforward_service_handler, command_return, service, bind_failed, listening, accept_failed,
  no_thread, started, set_running_task_changed, ListenAction, Turn, to_socket, to_tunnel,
}
use termtunnel.Portforward.Relay.{relay_lets_go, stop_read}
use termtunnel.Portforward.Listen.{
  portforward_static_start_releases, portforward_static_start-portforward_service_handler, released,
  workers, closed_new,
}
use termtunnel.Agentcall.Forward.{agentcall_server_request-call_send_request}
use termtunnel.Agentcall.{
  call_send_request, agentcall_server_request, forward_text, vnet_send, vnet_close, lwip_close,
}
use termtunnel.Agentcall
use termtunnel.Tests.Client.{world, memory_size}
use termtunnel.Repl.{recv_data, expect_read, got, send, say, reply_text, proceed}
use termtunnel.Repl.Commands.{repl_execve}
use termtunnel.Repl.Listen.{local_listen_starts}
use termtunnel.Server.{server_handle_client_packet, server_init}
use termtunnel.Server
use termtunnel.Command
use termtunnel.Words.{from_le}
use termtunnel.Income.{mode_server, mode_agent}
use termtunnel.Vnet.{arrived, wrote, failed, vnet_tcp_connect_with_retry, connect_loop}
use termtunnel.Vnet.Reads.{arrivals}
use termtunnel.Words.{le_bytes}
use termtunnel.Decimal.{print_decimal}

abbrev stands : Target → Dialed
stands t = connected

-- The port is cut in two, and the byte behind it is lost.
abbrev cut : List Bytes
cut = (b'a' ∷ 0 ∷ 0 ∷ []) ∷ (80 ∷ b'G' ∷ b'E' ∷ []) ∷ []

-- A short write, a time-out and a failed read; the last round does not come to pass.
abbrev rounds : List Turn
rounds = ready (arrived (codes "hi")) (wrote 1) ∷ idle ∷ []

abbrev never : List Turn
never = ready (arrived (codes "lost")) (wrote 4) ∷ []

relay_lets_go_example :
    (loop_lwipsocket_to_socket (rounds ++ ready (failed false) (wrote 0) ∷ never)
      ≡ ok (to_socket (codes "h") ∷ close_socket ∷ []))
    × (loop_socket_to_lwipsocket (rounds ++ ready (failed false) (wrote 0) ∷ never)
        ≡ ok (to_tunnel (codes "h") ∷ shutdown_tunnel ∷ []))
relay_lets_go_example =
    relay_lets_go rounds (ready (failed false) (wrote 0)) stop_read never (tt, (tt, tt)) tt

portforward_static_start_releases_example :
    released (portforward_static_start mode_agent (codes "h") 9 (codes "a") 80 bind_failed) ≡ 1
portforward_static_start_releases_example =
    portforward_static_start_releases mode_agent (codes "h") 9 (codes "a") 80 bind_failed

portforward_static_start-portforward_service_handler_example :
    (portforward_static_start mode_server (codes "h") 9 (codes "a") 80 listening
      ≡ bind_at (codes "h") 9
        ∷ listen_at 20
        ∷ command_return (codes "bind local port done" ++ 10 ∷ 0 ∷ [])
        ∷ service (codes "a") 80
        ∷ [])
    × (more : List ListenAction) × (portforward_service_handler
          (codes "a")
          80
          (started ∷ accept_failed ∷ no_thread ∷ [])
        ≡ set_running_task_changed true ∷ more)
    × (workers more ≡ portforward_static_server_pipe (codes "a") 80 ∷ [])
    × (closed_new more + 1 ≡ 2)
portforward_static_start-portforward_service_handler_example =
    portforward_static_start-portforward_service_handler (codes "h") 9 (codes "a") 80
      (started ∷ accept_failed ∷ no_thread ∷ []) (omega arith)

-- The answer of the server: 22 bytes, of the type 9.
abbrev answer : Bytes
answer =
    (22 ∷ replicate 7 0) ++ ((9 ∷ replicate 7 0) ++ (codes "bind local port done" ++ 10 ∷ 0 ∷ []))

local_listen_starts_example :
    (buf : Bytes) × (repl_execve world
        (codes "local_listen" ∷ codes "h" ∷ codes "9" ∷ codes "a" ∷ codes "80" ∷ [])
        (got answer ∷ [])
      ≡ ok (record {
        code = proceed;
        actions =
            send Command.port_forward buf
            ∷ say (reply_text (codes "bind local port done" ++ 10 ∷ []))
            ∷ [];
        events = [];
      }))
    × (server_handle_client_packet server_init Command.port_forward buf
        ≡ ok (server_init, Server.portforward_static_start (codes "h") 9 (codes "a") 80 ∷ []))
    × (portforward_static_start mode_server (codes "h") 9 (codes "a") 80 listening
        ≡ bind_at (codes "h") 9
          ∷ listen_at 20
          ∷ command_return (codes "bind local port done" ++ 10 ∷ 0 ∷ [])
          ∷ service (codes "a") 80
          ∷ [])
unfolding recv_data expect_read from_le print_decimal
local_listen_starts_example =
    local_listen_starts world server_init (codes "h") (codes "a") 9 80 22 (got answer ∷ []) []
      (omega (arith, memory_size)) (record { no_nul = (ground arith, tt); fits = omega arith })
      (record { no_nul = (ground arith, tt); fits = omega arith }) (omega arith) (omega arith) refl

agentcall_server_request-call_send_request_example :
    (call_send_request (some 3 ∷ []) 1 (forward_text (codes "a") 80 (codes "b") 443)
      ≡ ok (
          vnet_send (le_bytes 4 1)
          ∷ vnet_send (forward_text (codes "a") 80 (codes "b") 443 ++ 0 ∷ [])
          ∷ vnet_close
          ∷ []))
    × (agentcall_server_request [] (record {
      stale = false;
      reads = arrivals ((1 ∷ 0 ∷ 0 ∷ 0 ∷ codes "a:80:") ∷ (codes "b:443" ++ 0 ∷ []) ∷ []);
    })
        ≡ ok (Agentcall.portforward_static_start (codes "a") 80 (codes "b") 443 ∷ lwip_close ∷ []))
unfolding forward_text le_bytes print_decimal vnet_tcp_connect_with_retry connect_loop
agentcall_server_request-call_send_request_example =
    agentcall_server_request-call_send_request (some 3 ∷ []) 3 [] [] (codes "a") (codes "b") 80 443
      ((1 ∷ 0 ∷ 0 ∷ 0 ∷ codes "a:80:") ∷ (codes "b:443" ++ 0 ∷ []) ∷ []) refl
      (record {
        no_nul = (ground arith, tt);
        no_colon = (ground arith, tt);
        some_text = ground arith;
        fits = omega arith;
      })
      (record {
        no_nul = (ground arith, tt);
        no_colon = (ground arith, tt);
        some_text = ground arith;
        fits = omega arith;
      })
      (omega arith) (omega arith) (ground arith, (ground arith, tt)) refl
