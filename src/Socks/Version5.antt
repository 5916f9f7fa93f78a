-- ===== src/Socks/Version5.antt =====
-- Requests of version 5 to src/socksproxy.c.
use termtunnel.Base.{
  ℕ, Bytes, length, List, ◌≡◌, All, ◌∷◌, ◌<◌, [], flatten, ◌++◌, ok, ◌∙◌, if◌then◌else◌, ap, false,
  append_assoc, Bool-cases, inl, refl, inr,
}
use termtunnel.Socks.{
  socks5, socks5_auth, socks5_request, serve, Target, host_ip, host_name, Dialed, ProxyAction,
  answer, finish, noauth, ntohs, until_nul,
}
use termtunnel.Socks.Requests.{clean, readn-Got, read_methods-Got, read_sized-Got, offers}
use termtunnel.Vnet.Reads.{NotEmpty}
use termtunnel.Intent.{until_nul}

-- A request: an address of four bytes or a name, and a port of two.
pub data Request : Type 0 where
  by_ip : Bytes → Bytes → Request
  by_name : Bytes → Bytes → Request

abbrev pub IsRequest : Request → Type 0
IsRequest (by_ip ip port) = (length ip ≡ 4) × (length port ≡ 2)
IsRequest (by_name name port) = (length name < 256) × (length port ≡ 2)

-- The bytes of a request with this command.
abbrev pub request_bytes : ℕ → Request → Bytes
request_bytes command (by_ip ip port) = (5 ∷ command ∷ 0 ∷ 1 ∷ []) ++ (ip ++ port)
request_bytes command (by_name name port) =
    (5 ∷ command ∷ 0 ∷ 3 ∷ []) ++ length name ∷ (name ++ port)

abbrev pub target_of : Request → Target
target_of (by_ip ip port) = host_ip ip (ntohs port)
target_of (by_name name port) = host_name (until_nul name) (ntohs port)

-- The request's own address and port are sent back.
abbrev pub granted : Request → List ProxyAction
granted (by_ip ip port) = answer (5 ∷ 0 ∷ 0 ∷ 1 ∷ []) ∷ answer ip ∷ answer port ∷ []
granted (by_name name port) =
    answer (5 ∷ 0 ∷ 0 ∷ 3 ∷ []) ∷ answer (length name ∷ []) ∷ answer name ∷ answer port ∷ []

request_serves :
    (world : Target → Dialed) (r : Request) (command : ℕ) (xs : List Bytes) (rest : Bytes)
    → IsRequest r
    → All NotEmpty xs
    → flatten xs ≡ request_bytes command r ++ rest
    → socks5_request world (clean xs) ≡ ok (serve world (target_of r) (granted r) [])
unfolding socks5_request
request_serves world (by_ip ip port) command xs rest v h e =
    let first =
      readn-Got xs 4 (5 ∷ command ∷ 0 ∷ 1 ∷ []) (ip ++ (port ++ rest)) h
        (e ∙ ap (λ l. (5 ∷ command ∷ 0 ∷ 1 ∷ []) ++ l) (append_assoc ip port rest)) refl in
    let address = readn-Got first.more 4 ip (port ++ rest) first.good first.left v.0 in
    let last = readn-Got address.more 2 port rest address.good address.left v.1 in
    rw (first.ran, address.ran, last.ran) refl
request_serves world (by_name name port) command xs rest v h e =
    let first =
      readn-Got xs 4 (5 ∷ command ∷ 0 ∷ 3 ∷ []) (length name ∷ (name ++ (port ++ rest))) h
        (e ∙ ap (λ l. (5 ∷ command ∷ 0 ∷ 3 ∷ []) ++ length name ∷ l) (append_assoc name port rest))
        refl in
    let address = read_sized-Got first.more name (port ++ rest) first.good first.left in
    let last = readn-Got address.more 2 port rest address.good address.left v.1 in
    rw (first.ran, address.ran, last.ran) refl

-- Whatever stands in the command byte of the request.
pub socks5_serves :
    (world : Target → Dialed) (methods : Bytes) (r : Request) (command : ℕ) (xs : List Bytes)
    (rest : Bytes)
    → IsRequest r
    → All NotEmpty xs
    → flatten xs ≡ methods ++ (request_bytes command r ++ rest)
    → socks5 noauth world (length methods) (clean xs)
      ≡ ok (
          if offers 0 methods
          then answer (5 ∷ 0 ∷ []) ∷ serve world (target_of r) (granted r) []
          else answer (5 ∷ 255 ∷ []) ∷ finish 1 ∷ [])
unfolding socks5 socks5_auth
socks5_serves world methods r command xs rest v h e =
    let m = read_methods-Got xs 0 false methods (request_bytes command r ++ rest) h e in
    let q = request_serves world r command m.more rest v m.good m.left in
    elim (Bool-cases (offers 0 methods)) [
      | inl yes_offered ↦ rw (m.ran, yes_offered, q) refl
      | inr not_offered ↦ rw (m.ran, not_offered) refl
    ]
