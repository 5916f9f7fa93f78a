-- ===== src/Repl/Listen.antt =====
-- The command `local_listen` of src/repl.c, with the packet that the server of src/pipe.c gets and
-- what src/portforward.c makes of it.
use termtunnel.Base.{
  ℕ, Bytes, ◌≡◌, ◌<◌, codes, bytes_eq, ◌∷◌, ok, ◌++◌, false, arith, [], List, ◌*◌, subst, ◌≤◌, ◌+◌,
  ◌∙◌, length, ◌-◌, ap, some, refl, sym, leb, ◌^◌, ◌%◌,
}
use termtunnel.Repl.{World, ReadEvent, recv_data, send, say, proceed, reply_text, cut_nul}
use termtunnel.Repl.Commands.{
  repl_execve, atoi16, digits, portforward_func, find_action, forward_ports,
}
use termtunnel.Decimal.{
  digit_plain, print_port, worth, IsDigits, worth-print_decimal, All-print_decimal,
  print_decimal-Leads,
}
use termtunnel.Intent.Forward.{IsHost, read_port_forward-new_port_forward_intent}
use termtunnel.Intent.{forward_static_port_map, host_max}
use termtunnel.Server.{Server, server_handle_client_packet}
use termtunnel.Server
use termtunnel.Portforward.{
  portforward_static_start, bind_at, listen_at, command_return, service, listening,
}
use termtunnel.Income.{mode_server}
use termtunnel.Command

digits-worth : (n : ℕ) (ds : Bytes) → IsDigits ds → digits n ds ≡ worth n ds
unfolding digits worth
digits-worth n [] h = refl
digits-worth n (d ∷ ds) h =
    let order : 10 * n ≡ n * 10 = omega arith in
    rw (h.0, order, digits-worth (n * 10 + (d - b'0')) ds h.1) refl

-- What `atoi` reads of a port is the port.
atoi16-print_port : (n : ℕ) → n < 65536 → atoi16 (print_port n) ≡ ok n
unfolding atoi16
atoi16-print_port n h =
    let l = print_decimal-Leads 4 n (omega arith) in
    let d = subst IsDigits l.starts (All-print_decimal 5 n) in
    let plain = digit_plain l.first d.0 in
    let reads : digits 0 (l.first ∷ l.others) ≡ n =
      digits-worth 0 (l.first ∷ l.others) d
      ∙ ap (worth 0) (sym l.starts)
      ∙ worth-print_decimal 5 n (omega arith) in
    let small : leb (2 ^ 31) n ≡ false = ground arith in
    let low : n % 65536 ≡ n = omega arith in
    rw (l.starts, plain.0, plain.1, plain.2, reads, small, low) refl

-- What a server tells that listens.
abbrev done : Bytes
done = codes "bind local port done" ++ 10 ∷ []

-- `local_listen HOST PORT HOST PORT`, with hosts of at most 63 characters and ports below 65536 in
-- decimal. The command sends one packet, and prints the answer when the server's next message is
-- that it listens. The server that gets the packet starts to listen with exactly these hosts and
-- ports, and where that succeeds it binds to the first, sends this answer, and serves the second.
pub local_listen_starts :
    (w : World) (s : Server) (src dst : Bytes) (src_port dst_port n : ℕ) (evs rest : List ReadEvent)
    → 136 ≤ length w.memory
    → IsHost src
    → IsHost dst
    → src_port < 65536
    → dst_port < 65536
    → recv_data evs
      ≡ ok (record { type = Command.return; buf = some (done ++ 0 ∷ []); size = n }, rest)
    → (buf : Bytes) × (repl_execve w
          (codes "local_listen" ∷ src ∷ print_port src_port ∷ dst ∷ print_port dst_port ∷ [])
          evs
        ≡ ok (record {
          code = proceed;
          actions = send Command.port_forward buf ∷ say (reply_text done) ∷ [];
          events = rest;
        }))
      × (server_handle_client_packet s Command.port_forward buf
          ≡ ok (s, Server.portforward_static_start src src_port dst dst_port ∷ []))
      × (portforward_static_start mode_server src src_port dst dst_port listening
          ≡ bind_at src src_port
            ∷ listen_at 20
            ∷ command_return (done ++ 0 ∷ [])
            ∷ service dst dst_port
            ∷ [])
unfolding repl_execve find_action portforward_func forward_ports server_handle_client_packet
    bytes_eq cut_nul portforward_static_start
local_listen_starts w s src dst src_port dst_port n evs rest m p q u v r =
    let (buf, made, seen) =
      read_port_forward-new_port_forward_intent w.memory forward_static_port_map src src_port dst
        dst_port m (omega arith) p q in
    let short : leb host_max (length dst) ≡ false = ground (arith, q.fits) in
    let low : src_port % 65536 ≡ src_port = omega arith in
    let low_too : dst_port % 65536 ≡ dst_port = omega arith in
    let told : forward_ports w (codes "local_listen") src src_port dst dst_port evs
        ≡ ok (record {
          code = proceed;
          actions = send Command.port_forward buf ∷ say (reply_text done) ∷ [];
          events = rest;
        }) =
      rw (forward_ports, made, r) refl in
    (
      buf,
      rw (atoi16-print_port src_port u, atoi16-print_port dst_port v) told,
      rw (seen, low, low_too) refl,
      rw short refl,
    )
