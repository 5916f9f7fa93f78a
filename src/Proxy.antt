-- ===== src/Proxy.antt =====
-- A connection to the proxy of src/socksproxy.c, from its first two bytes on: `socks_invitation`
-- and `app_thread_process`.
pub mod Serves
use termtunnel.Base.{ℕ, Bytes, Result, ◌==◌, List, ◌>>=◌, get_or, if◌then◌else◌}
use termtunnel.Socks.{Auth, Target, Dialed, ProxyAction, readn, socks5, socks4, as_count}
use termtunnel.Http.{http_proxy}
use termtunnel.Vnet.{Socket}

-- Another version than 4 and 5 is the start of an HTTP request, whose thread closes the connection
-- by itself.
unfoldable pub app_thread_process : Auth → (Target → Dialed) → Socket → Result (List ProxyAction)
unfolding readn socks5 socks4 http_proxy
app_thread_process auth world s = do
  header ← readn 2 s
  let version = get_or header.0 0 0
  let methods = get_or header.0 1 0
  if version == 5
      then socks5 auth world (as_count methods) header.1
      else if version == 4
      then socks4 world methods header.1
      else http_proxy world header.0 header.1
