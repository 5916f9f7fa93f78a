-- ===== src/Socks/Version4.antt =====
-- Requests of version 4 and 4A to src/socksproxy.c.
use termtunnel.Base.{
  ℕ, Bytes, length, List, All, ◌≡◌, ◌++◌, ◌∷◌, ◌≢◌, false, [], replicate, flatten, ◌<◌, ok, map,
  ◌∙◌, arith, ap, suc, ne→==, zero, refl,
}
use termtunnel.Socks.{
  socks4, serve, Target, host_ip, host_name, Dialed, ProxyAction, answer, ntohs, read_nstring,
  ident_size, socks4_is_4a,
}
use termtunnel.Socks.Requests.{clean, readn-Got}
use termtunnel.Vnet.Reads.{NotEmpty, duplicate_text, single-arrivals}
use termtunnel.Vnet.{one}

-- A text that a buffer of 255 bytes holds with its NUL.
pub record IsText (s : Bytes) : Type 0 where
  pub no_nul : All (λ a. a ≢ 0) s
  pub fits : length s < ident_size

-- A port, an address of four bytes, the user, and for an address 0.0.0.x the name.
pub data Request : Type 0 where
  by_ip : Bytes → Bytes → Bytes → Request
  by_name : Bytes → ℕ → Bytes → Bytes → Request

abbrev pub IsRequest : Request → Type 0
IsRequest (by_ip port ip user) =
    (length port ≡ 2) × (length ip ≡ 4) × (socks4_is_4a ip ≡ false) × IsText user
IsRequest (by_name port x user name) = (length port ≡ 2) × (x ≢ 0) × IsText user × IsText name

abbrev pub request_bytes : Request → Bytes
request_bytes (by_ip port ip user) = port ++ (ip ++ (user ++ 0 ∷ []))
request_bytes (by_name port x user name) =
    port ++ ((0 ∷ 0 ∷ 0 ∷ x ∷ []) ++ (user ++ 0 ∷ (name ++ 0 ∷ [])))

abbrev pub target_of : Request → Target
target_of (by_ip port ip user) = host_ip ip (ntohs port)
target_of (by_name port x user name) = host_name name (ntohs port)

read_nstring_text :
    (s rest : Bytes) (room : ℕ)
    → All (λ a. a ≢ 0) s
    → length s < room
    → read_nstring room (map one (s ++ 0 ∷ rest)) ≡ ok (s ++ 0 ∷ [], map one rest)
unfolding read_nstring
read_nstring_text s rest zero h l = absurd (omega arith)
read_nstring_text [] rest (suc room) h l = refl
read_nstring_text (a ∷ s) rest (suc room) h l =
    let ih = read_nstring_text s rest room h.1 (omega arith) in rw (ne→== a 0 h.0, ih) refl

abbrev yes_answer : List ProxyAction
yes_answer = answer (0 ∷ 0x5a ∷ replicate 6 0) ∷ []

abbrev no_answer : List ProxyAction
no_answer = answer (0 ∷ 0x5b ∷ replicate 6 0) ∷ []

-- Over any cut of the connection's bytes: a request to connect is answered by whether the
-- connection outside stands.
pub socks4_serves :
    (world : Target → Dialed) (r : Request) (xs : List Bytes)
    → IsRequest r
    → All NotEmpty xs
    → flatten xs ≡ request_bytes r
    → socks4 world 1 (clean xs)
      ≡ ok (
          serve world
            (target_of r)
            (answer (0 ∷ 0x5a ∷ replicate 6 0) ∷ [])
            (answer (0 ∷ 0x5b ∷ replicate 6 0) ∷ []))
unfolding socks4
socks4_serves world (by_ip port ip user) xs v h e =
    let first = readn-Got xs 2 port (ip ++ (user ++ 0 ∷ [])) h e v.0 in
    let address = readn-Got first.more 4 ip (user ++ 0 ∷ []) first.good first.left v.1 in
    let s = single-arrivals address.more address.good ∙ ap (map one) address.left in
    let ident = read_nstring_text user [] ident_size v.3.no_nul v.3.fits in
    rw (first.ran, address.ran, s, ident, v.2) refl
socks4_serves world (by_name port x user name) xs v h e =
    let first =
      readn-Got xs 2 port ((0 ∷ 0 ∷ 0 ∷ x ∷ []) ++ (user ++ 0 ∷ (name ++ 0 ∷ []))) h e v.0 in
    let address =
      readn-Got first.more 4 (0 ∷ 0 ∷ 0 ∷ x ∷ []) (user ++ 0 ∷ (name ++ 0 ∷ [])) first.good
        first.left refl in
    let s = single-arrivals address.more address.good ∙ ap (map one) address.left in
    let ident = read_nstring_text user (name ++ 0 ∷ []) ident_size v.2.no_nul v.2.fits in
    let domain = read_nstring_text name [] ident_size v.3.no_nul v.3.fits in
    rw
      (
        first.ran,
        address.ran,
        s,
        ident,
        domain,
        ne→== x 0 v.1,
        duplicate_text user v.2.no_nul,
        duplicate_text name v.3.no_nul,
      )
      refl
