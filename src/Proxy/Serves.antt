-- ===== src/Proxy/Serves.antt =====
-- Clients of src/socksproxy.c, in each of the protocols that `app_thread_process` tells apart.
use termtunnel.Base.{
  ℕ, Bytes, List, Bool, ◌≡◌, length, All, false, true, ◌<◌, flatten, ◌∷◌, ◌≤◌, [], ◌++◌, map, ok,
  not, codes, replicate, ◌&&◌, some, if◌then◌else◌, lt→ltb, refl, ◌∙◌, ap, arith, suc, append_assoc,
  ne→==, zero,
}
use termtunnel.Socks.{Auth, Target, Dialed, answer, finish, noauth, serve}
use termtunnel.Socks.Version5.{socks5_serves}
use termtunnel.Socks.Version4.{socks4_serves}
use termtunnel.Socks.Version5
use termtunnel.Socks.Version4
use termtunnel.Socks.Requests.{clean, readn-Got, offers}
use termtunnel.Vnet.Reads.{NotEmpty, single-arrivals}
use termtunnel.Http.{readtochar_loop, readtochar_r, at_end, http_proxy, ends_host}
use termtunnel.Http.Connect.{http_request_connects, connect_actions, Passes}
use termtunnel.Proxy.{app_thread_process}
use termtunnel.Vnet.{one}
use termtunnel.Decimal.{print_port}

-- A client of version 5 that offers at most 127 methods and sends a request, to an address or to a
-- name of at most 255 bytes, whose bytes may arrive in pieces of any size, with an errno that
-- is not EINTR or EAGAIN from an earlier call. When no password is
-- asked for and the method 0 is among the offered ones, the thread answers `5 0`, looks up and
-- connects to that address or name (up to its first NUL) and port; it then answers with the
-- request's own address and port and relays if the connection stands, and ends without an answer if
-- it does not; for a name with no address it first calls `close` on a variable that nothing was
-- written to. Otherwise it answers `5 255` and ends. The command byte of the request makes no
-- difference.
pub app_thread_process-socks5 :
    (world : Target → Dialed) (methods : Bytes) (r : Version5.Request) (command : ℕ)
    (xs : List Bytes) (rest : Bytes)
    → Version5.IsRequest r
    → length methods < 128
    → All NotEmpty xs
    → flatten xs
      ≡ (5 ∷ length methods ∷ []) ++ (methods ++ (Version5.request_bytes command r ++ rest))
    → app_thread_process noauth world (clean xs)
      ≡ ok (
          if offers 0 methods
          then answer (5 ∷ 0 ∷ []) ∷ serve world (Version5.target_of r) (Version5.granted r) []
          else answer (5 ∷ 255 ∷ []) ∷ finish 1 ∷ [])
unfolding app_thread_process
app_thread_process-socks5 world methods r command xs rest v small h e =
    let first =
      readn-Got xs 2 (5 ∷ length methods ∷ [])
        (methods ++ (Version5.request_bytes command r ++ rest)) h e refl in
    let served = socks5_serves world methods r command first.more rest v first.good first.left in
    rw (first.ran, lt→ltb (length methods) 128 small, served) refl

-- A client of version 4 or 4A that asks to connect, to an address that does not start 0.0.0 or ends
-- in 0, or to a name, with texts of at most 254 bytes that have no NUL, and whose bytes may arrive
-- in pieces of any size, with an errno that is not EINTR or EAGAIN from an earlier call: the thread connects to that address or name and port, answers `0 90` and
-- relays if the connection stands, and answers `0 91` and ends if it does not; for a name with no
-- address it first calls `close` on a variable that nothing was written to.
pub app_thread_process-socks4 :
    (auth : Auth) (world : Target → Dialed) (r : Version4.Request) (xs : List Bytes)
    → Version4.IsRequest r
    → All NotEmpty xs
    → flatten xs ≡ (4 ∷ 1 ∷ []) ++ Version4.request_bytes r
    → app_thread_process auth world (clean xs)
      ≡ ok (
          serve world
            (Version4.target_of r)
            (answer (0 ∷ 0x5a ∷ replicate 6 0) ∷ [])
            (answer (0 ∷ 0x5b ∷ replicate 6 0) ∷ []))
unfolding app_thread_process
app_thread_process-socks4 auth world r xs v h e =
    let first = readn-Got xs 2 (4 ∷ 1 ∷ []) (Version4.request_bytes r) h e refl in
    let served = socks4_serves world r first.more v first.good first.left in
    rw (first.ran, served) refl

-- The first blank line of a text is at its end; the bytes before `kept` do not count.
abbrev pub ends_once : Bytes → Bytes → Bool
ends_once kept [] = false
ends_once kept (a ∷ []) = at_end (kept ++ a ∷ [])
ends_once kept (a ∷ b ∷ r) = not (at_end (kept ++ a ∷ [])) && ends_once (kept ++ a ∷ []) (b ∷ r)

not_split : (a b : Bool) → (not a && b) ≡ true → (a ≡ false) × (b ≡ true)
not_split true b h = cc
not_split false b h = (refl, h)

readtochar_loop-ends_once :
    (room : ℕ) (kept text after : Bytes)
    → ends_once kept text ≡ true
    → length text ≤ room
    → readtochar_loop room kept (map one (text ++ after)) ≡ ok (some (kept ++ text), map one after)
unfolding readtochar_loop
readtochar_loop-ends_once room kept [] after h l = cc
readtochar_loop-ends_once zero kept (a ∷ text) after h l = absurd (omega arith)
readtochar_loop-ends_once (suc room) kept (a ∷ []) after h l = rw h refl
readtochar_loop-ends_once (suc room) kept (a ∷ b ∷ r) after h l =
    let both = not_split (at_end (kept ++ a ∷ [])) _ h in
    let ih = readtochar_loop-ends_once room (kept ++ a ∷ []) (b ∷ r) after both.1 (omega arith) in
    rw (both.0, ih, append_assoc kept (a ∷ []) (b ∷ r)) refl

-- An HTTP client that sends `CONNECT host:port ...`, in at most 4095 bytes that end with their
-- first blank line (not counting one that starts in the first two bytes), and arrive in pieces of
-- any size, with an errno that is not EINTR or EAGAIN from an earlier call: a host of at most 127 characters, none of them a NUL, a colon, a slash or a space, and
-- a port below 65536, printed as a decimal number. The thread looks up and connects to that host
-- and that port. If no address is found or the connection is refused, it answers 500 with the
-- reason and closes the client's socket; if the connection stands, it answers 200, relays, and
-- closes.
pub app_thread_process-connect :
    (auth : Auth) (world : Target → Dialed) (host : Bytes) (port : ℕ) (tail after : Bytes)
    (xs : List Bytes)
    → Passes (ends_host true) host
    → length host ≤ 127
    → port < 65536
    → ends_once [] (codes "NNECT " ++ (host ++ b':' ∷ (print_port port ++ b' ' ∷ tail))) ≡ true
    → length (codes "CONNECT " ++ (host ++ b':' ∷ (print_port port ++ b' ' ∷ tail))) ≤ 4095
    → All NotEmpty xs
    → flatten xs ≡ codes "CONNECT " ++ (host ++ b':' ∷ (print_port port ++ b' ' ∷ tail)) ++ after
    → app_thread_process auth world (clean xs) ≡ ok (connect_actions world host port)
unfolding app_thread_process http_proxy readtochar_r
app_thread_process-connect auth world host port tail after xs h room small once short n e =
    let text = codes "NNECT " ++ (host ++ b':' ∷ (print_port port ++ b' ' ∷ tail)) in
    let first = readn-Got xs 2 (codes "CO") (text ++ after) n e refl in
    let s = single-arrivals first.more first.good ∙ ap (map one) first.left in
    let head = readtochar_loop-ends_once 4093 [] text after once (omega arith) in
    rw
      (
        first.ran,
        s,
        head,
        ne→== (length text) 0 (λ z. absurd (omega arith)),
        http_request_connects world host port tail h room small,
      )
      refl
