-- ===== src/Socks.antt =====
-- The SOCKS proxy of src/socksproxy.c: what `app_thread_process` does on a connection of the
-- network stack, up to the relay of src/portforward.c. Writes are complete, and `malloc` succeeds.
-- How a name is looked up and a connection made outside is a parameter.
pub mod Requests
pub mod Version5
pub mod Version4
use termtunnel.Base.{
  ℕ, Bytes, Result, if◌then◌else◌, Bool, List, Option, ◌>>=◌, ltb, ok, false, ◌∷◌, get_or, ◌==◌,
  ◌*◌, suc, bytes_eq, true, ◌++◌, [], ◌&&◌, replicate, none, fault, ◌+◌, ◌||◌, some, not, unset,
  length, out_of_fuel, zero,
}
use termtunnel.Vnet.{Socket, SocketRead, vnet_readn, duplicate, single, failed, arrived, closed}
use termtunnel.Intent.{until_nul}

-- Where a client wants to be connected: the bytes of an address or a name, and a port.
pub data Target : Type 0 where
  host_ip : Bytes → ℕ → Target
  host_name : Bytes → ℕ → Target

-- What looking up and connecting gives: `safe_gethostbyname` finds nothing, `connect` fails with
-- this text, or it stands.
pub data Dialed : Type 0 where
  no_address : Dialed
  refused : Bytes → Dialed
  connected : Dialed

-- What a connection's thread does, in order. `relay` is `pipe_lwip_socket_and_socket_pair`, with
-- the outer socket or with -1.
pub data ProxyAction : Type 0 where
  answer : Bytes → ProxyAction
  dial : Target → ProxyAction
  to_remote : Bytes → ProxyAction
  relay : Option Target → ProxyAction
  close_client : ProxyAction
  close_unset : ProxyAction  -- `close` of a variable that nothing was written to
  finish : ℕ → ProxyAction

-- The global `auth_type`, with `arg_username` and `arg_password`.
pub data Auth : Type 0 where
  noauth : Auth
  userpass : Bytes → Bytes → Auth

-- `readn`, a copy of `vnet_readn`. Its callers pass over the result 0 and use a buffer that was not
-- filled.
unfoldable pub readn : ℕ → Socket → Result (Bytes × Socket)
unfolding vnet_readn
readn n s = vnet_readn n s >>= λ r. elim r.0 [ none ↦ fault unset | some b ↦ ok (b, r.1) ]

-- One byte.
unfoldable pub read_byte : Socket → Result (ℕ × Socket)
unfolding readn
read_byte s = readn 1 s >>= λ r. elim r.0 [ [] ↦ fault unset | a ∷ b ↦ ok (a, r.1) ]

-- `ntohs` of two bytes.
abbrev pub ntohs : Bytes → ℕ
ntohs (hi ∷ lo ∷ r) = hi * 256 + lo
ntohs _ = 0

-- A `char` as an `int` that counts: from 128 on it is negative, and a loop up to it does not run.
abbrev pub as_count : ℕ → ℕ
as_count b = if ltb b 128 then b else 0

abbrev pub method_of : Auth → ℕ
method_of noauth = 0
method_of (userpass u p) = 2

-- The loop of `socks5_auth` over the offered methods: whether the configured one is among them.
unfoldable pub read_methods : ℕ → ℕ → Bool → Socket → Result (Bool × Socket)
unfolding read_byte
read_methods wanted zero supported s = ok (supported, s)
read_methods wanted (suc n) supported s =
    read_byte s >>= λ r. read_methods wanted n (supported || r.0 == wanted) r.1

-- A size, and as many bytes: `socks5_auth_get_user`, `socks5_auth_get_pass`, `socks5_domain_read`.
unfoldable pub read_sized : Socket → Result (Bytes × Socket)
unfolding read_byte readn
read_sized s = read_byte s >>= λ size. readn size.0 size.1

-- Whether the client may go on, the answers, and the reads to come.
pub record Authed : Type 0 where
  pub passed : Bool
  pub answers : List ProxyAction
  pub socket : Socket

unfoldable pub socks5_auth_userpass : Bytes → Bytes → Socket → Result Authed
unfolding read_byte read_sized
socks5_auth_userpass user pass s = do
  resp ← read_byte s
  u ← read_sized resp.1
  p ← read_sized u.1
  let same = bytes_eq user (until_nul u.0) && bytes_eq pass (until_nul p.0)
  ok (record {
    passed = same;
    answers = answer (5 ∷ 2 ∷ []) ∷ answer (1 ∷ (if same then 0 else 255) ∷ []) ∷ [];
    socket = p.1;
  })

unfoldable pub socks5_auth : Auth → ℕ → Socket → Result Authed
unfolding read_methods socks5_auth_userpass
socks5_auth auth count s = read_methods (method_of auth) count false s >>= λ m.
    if m.0
    then elim auth [
      | noauth ↦ ok (record { passed = true; answers = answer (5 ∷ 0 ∷ []) ∷ []; socket = m.1 })
      | userpass u p ↦ socks5_auth_userpass u p m.1
    ]
    else ok (record { passed = false; answers = answer (5 ∷ 255 ∷ []) ∷ []; socket = m.1 })

-- `app_connect` looks up a name before it has a socket, and closes `fd` if there is no address.
abbrev pub not_found : Target → List ProxyAction
not_found (host_ip ip port) = []
not_found (host_name name port) = close_unset ∷ []

-- `app_connect`, the answer and the relay: `yes_answer` if the connection stands.
abbrev pub serve :
    (Target → Dialed) → Target → List ProxyAction → List ProxyAction → List ProxyAction
serve world t yes_answer no_answer = dial t ∷ elim (world t) [
  | connected ↦ yes_answer ++ relay (some t) ∷ finish 0 ∷ []
  | no_address ↦ not_found t ++ (no_answer ++ finish 1 ∷ [])
  | refused text ↦ no_answer ++ finish 1 ∷ []
]

-- Behind the authentication: `socks5_command` returns the type of the address.
unfoldable pub socks5_request : (Target → Dialed) → Socket → Result (List ProxyAction)
unfolding readn read_sized
socks5_request world s = do
  command ← readn 4 s
  let kind = get_or command.0 3 0
  if kind == 1
      then (do
        ip ← readn 4 command.1
        p ← readn 2 ip.1
        ok (
            serve world (host_ip ip.0 (ntohs p.0))
              (answer (5 ∷ 0 ∷ 0 ∷ 1 ∷ []) ∷ answer ip.0 ∷ answer p.0 ∷ []) []))
      else if kind == 3
      then (do
        name ← read_sized command.1
        p ← readn 2 name.1
        ok (
            serve world (host_name (until_nul name.0) (ntohs p.0))
              (answer (5 ∷ 0 ∷ 0 ∷ 3 ∷ [])
                ∷ answer (length name.0 ∷ [])
                ∷ answer name.0
                ∷ answer p.0
                ∷ [])
              []))
      else ok (finish 1 ∷ [])

unfoldable pub socks5 : Auth → (Target → Dialed) → ℕ → Socket → Result (List ProxyAction)
unfolding socks5_auth socks5_request
socks5 auth world count s = socks5_auth auth count s >>= λ a.
    if a.passed
    then (socks5_request world a.socket >>= λ r. ok (a.answers ++ r))
    else ok (a.answers ++ finish 1 ∷ [])

abbrev pub socks4_is_4a : Bytes → Bool
socks4_is_4a ip =
    get_or ip 0 0 == 0 && get_or ip 1 0 == 0 && get_or ip 2 0 == 0 && not (get_or ip 3 0 == 0)

-- `socks4_read_nstring` with the places left: up to and with a NUL, or to the first read that
-- brings nothing.
unfoldable pub read_nstring : ℕ → List SocketRead → Result (Bytes × List SocketRead)
read_nstring zero rs = ok ([], rs)
read_nstring (suc n) [] = fault out_of_fuel
read_nstring (suc n) (closed ∷ rs) = ok ([], rs)
read_nstring (suc n) (failed again ∷ rs) = ok ([], rs)
read_nstring (suc n) (arrived [] ∷ rs) = ok ([], rs)
read_nstring (suc n) (arrived (a ∷ b) ∷ rs) =
    let rest = read_nstring n rs in
    if a == 0 then ok (a ∷ [], rs) else (rest >>= λ r. ok (a ∷ r.0, r.1))

abbrev pub ident_size : ℕ
ident_size = 255

-- For version 4, where `methods` is the command. Only `CONNECT` is served.
unfoldable pub socks4 : (Target → Dialed) → ℕ → Socket → Result (List ProxyAction)
unfolding readn read_nstring duplicate single
socks4 world methods s =
    if methods == 1
    then (do
      p ← readn 2 s
      ip ← readn 4 p.1
      ident ← read_nstring ident_size (single ip.1.reads)
      let yes_answer = answer (0 ∷ 0x5a ∷ replicate 6 0) ∷ []
      let no_answer = answer (0 ∷ 0x5b ∷ replicate 6 0) ∷ []
      if socks4_is_4a ip.0
          then (do
            name ← read_nstring ident_size ident.1
            user ← duplicate ident.0
            domain ← duplicate name.0
            ok (serve world (host_name domain (ntohs p.0)) yes_answer no_answer))
          else ok (serve world (host_ip ip.0 (ntohs p.0)) yes_answer no_answer))
    else ok (relay none ∷ finish 0 ∷ [])
