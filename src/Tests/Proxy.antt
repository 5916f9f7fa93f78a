-- ===== src/Tests/Proxy.antt =====
-- Clients of the proxy.
use termtunnel.Base.{
  bytes_eq, ℕ, Bytes, codes, ◌∷◌, List, Option, [], ◌++◌, replicate, ◌≡◌, none, ok, some, arith,
  ◌≤◌, refl,
}
use termtunnel.Socks.{
  Target, Dialed, connected, refused, noauth, answer, dial, relay, finish, close_client, host_name,
}
use termtunnel.Socks.Version5
use termtunnel.Socks.Version4
use termtunnel.Socks.Requests.{clean}
use termtunnel.Proxy.{app_thread_process}
use termtunnel.Proxy.Serves.{
  app_thread_process-socks5, app_thread_process-socks4, app_thread_process-connect,
}
use termtunnel.Intent.{until_nul}
use termtunnel.Decimal.{print_decimal}
use termtunnel.Http.{blank_line}
use termtunnel.Vnet.{wrote, write_failed, lwip_writen, SocketWrite, vnet_tcp_connect_with_retry}
use termtunnel.Vnet.Writes.{lwip_writen_whole}
use termtunnel.Vnet.Connect.{vnet_tcp_connect_with_retry_ends, total, Settled}

abbrev stands : Target → Dialed
stands t = connected

abbrev fails : Target → Dialed
fails t = refused (codes "no")

app_thread_process-socks5_example :
    app_thread_process noauth stands
      (clean ((5 ∷ 2 ∷ 2 ∷ []) ∷ (0 ∷ 5 ∷ 1 ∷ 0 ∷ 3 ∷ 1 ∷ []) ∷ (b'a' ∷ 0 ∷ 80 ∷ []) ∷ []))
    ≡ ok (
        answer (5 ∷ 0 ∷ [])
        ∷ dial (host_name (codes "a") 80)
        ∷ answer (5 ∷ 0 ∷ 0 ∷ 3 ∷ [])
        ∷ answer (1 ∷ [])
        ∷ answer (codes "a")
        ∷ answer (0 ∷ 80 ∷ [])
        ∷ relay (some (host_name (codes "a") 80))
        ∷ finish 0
        ∷ [])
unfolding until_nul
app_thread_process-socks5_example =
    app_thread_process-socks5 stands (2 ∷ 0 ∷ []) (Version5.by_name (codes "a") (0 ∷ 80 ∷ [])) 1
      ((5 ∷ 2 ∷ 2 ∷ []) ∷ (0 ∷ 5 ∷ 1 ∷ 0 ∷ 3 ∷ 1 ∷ []) ∷ (b'a' ∷ 0 ∷ 80 ∷ []) ∷ []) []
      (omega arith, refl) (omega arith) (ground arith, (ground arith, (ground arith, tt))) refl

app_thread_process-socks4_example :
    app_thread_process noauth fails
      (clean ((4 ∷ 1 ∷ 0 ∷ 80 ∷ []) ∷ (0 ∷ 0 ∷ 0 ∷ 1 ∷ b'u' ∷ 0 ∷ b'a' ∷ []) ∷ (0 ∷ []) ∷ []))
    ≡ ok (dial (host_name (codes "a") 80) ∷ answer (0 ∷ 0x5b ∷ replicate 6 0) ∷ finish 1 ∷ [])
app_thread_process-socks4_example =
    app_thread_process-socks4 noauth fails
      (Version4.by_name (0 ∷ 80 ∷ []) 1 (codes "u") (codes "a"))
      ((4 ∷ 1 ∷ 0 ∷ 80 ∷ []) ∷ (0 ∷ 0 ∷ 0 ∷ 1 ∷ b'u' ∷ 0 ∷ b'a' ∷ []) ∷ (0 ∷ []) ∷ [])
      (
        refl,
        ground arith,
        record { no_nul = (ground arith, tt); fits = omega arith },
        record { no_nul = (ground arith, tt); fits = omega arith },
      )
      (ground arith, (ground arith, (ground arith, tt))) refl

abbrev request : Bytes
request = codes "CONNECT a:443 HTTP/1.1" ++ blank_line

app_thread_process-connect_example :
    app_thread_process noauth stands (clean (request ∷ []))
    ≡ ok (
        dial (host_name (codes "a") 443)
        ∷ answer (codes "HTTP/1.1 200 Connection Established" ++ blank_line)
        ∷ relay (some (host_name (codes "a") 443))
        ∷ close_client
        ∷ [])
unfolding print_decimal bytes_eq
app_thread_process-connect_example =
    app_thread_process-connect noauth stands (codes "a") 443 (codes "HTTP/1.1" ++ blank_line) []
      (request ∷ []) (refl, tt) (omega arith) (omega arith) refl (omega arith) (ground arith, tt)
      refl

lwip_writen_whole_example :
    (left : List SocketWrite) × (lwip_writen (codes "abc") (wrote 1 ∷ write_failed ∷ wrote 2 ∷ [])
      ≡ ok (codes "abc", left))
lwip_writen_whole_example =
    lwip_writen_whole (codes "abc") (some (codes "a") ∷ none ∷ some (codes "bc") ∷ [])
      (ground arith, (ground arith, (ground arith, tt))) refl

vnet_tcp_connect_with_retry_ends_example :
    (r : Option ℕ) × (sleeps : List ℕ) × (vnet_tcp_connect_with_retry (replicate 10 none)
      ≡ ok (r, sleeps))
    × (total sleeps ≤ 1023000)
    × Settled 10 r sleeps
vnet_tcp_connect_with_retry_ends_example =
    vnet_tcp_connect_with_retry_ends (replicate 10 none) (omega arith)
