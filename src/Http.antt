-- ===== src/Http.antt =====
-- The HTTP proxy of src/socksproxy.c: `readtocharR` and `http_proxy`. The texts of the buffer end
-- with a NUL, and memory behind it was not set. The outer socket exists and takes what is written
-- to it.
pub mod Connect
use termtunnel.Base.{
  ℕ, Bytes, bytes_eq, Result, if◌then◌else◌, ◌^◌, Bool, Option, ◌∷◌, leb, List, [], ◌-◌, fault,
  ◌==◌, ok, take, ◌>>=◌, length, some, ◌&&◌, suc, ltb, ◌||◌, unset, get_or, codes, ◌++◌, drop,
  out_of_fuel, ◌+◌, ◌*◌, ◌%◌, none, false, true, zero,
}
use termtunnel.Socks.{
  Target, Dialed, ProxyAction, answer, dial, to_remote, relay, close_client, connected, refused,
  no_address, host_name,
}
use termtunnel.Vnet.{SocketRead, Socket, single, arrived, failed, closed}
use termtunnel.Repl.{isspace}

-- `\r\n\r\n`
abbrev pub blank_line : Bytes
blank_line = 13 ∷ 10 ∷ 13 ∷ 10 ∷ []

-- The test behind each byte that `readtocharR` reads.
abbrev pub at_end : Bytes → Bool
at_end kept = leb 4 (length kept) && bytes_eq (drop (length kept - 4) kept) blank_line

-- `readtocharR` with the places left; `none` is a result of 0 or -1.
unfoldable pub readtochar_loop :
    ℕ → Bytes → List SocketRead → Result (Option Bytes × List SocketRead)
unfolding bytes_eq
readtochar_loop zero kept rs = ok (some kept, rs)
readtochar_loop (suc room) kept [] = fault out_of_fuel
readtochar_loop (suc room) kept (closed ∷ rs) = ok (none, rs)
readtochar_loop (suc room) kept (arrived [] ∷ rs) = ok (none, rs)
readtochar_loop (suc room) kept (failed again ∷ rs) =
    let rest = readtochar_loop (suc room) kept rs in if again then rest else ok (none, rs)
readtochar_loop (suc room) kept (arrived (a ∷ b) ∷ rs) =
    let rest = readtochar_loop room (kept ++ a ∷ []) rs in
    if at_end (kept ++ a ∷ []) then ok (some (kept ++ a ∷ []), rs) else rest

unfoldable pub readtochar_r : ℕ → Socket → Result (Option Bytes × List SocketRead)
unfolding readtochar_loop single
readtochar_r bufsize s = readtochar_loop bufsize [] (single s.reads)

abbrev pub toupper : ℕ → ℕ
toupper c = if leb b'a' c && leb c b'z' then c - 32 else c

-- The method: at most 15 characters up to a space or the NUL.
unfoldable pub command_of : ℕ → Bytes → Bytes
command_of zero text = []
command_of (suc n) [] = []
command_of (suc n) (c ∷ cs) = if c == 0 || c == b' ' then [] else toupper c ∷ command_of n cs

abbrev pub value_of : ℕ → ℕ
value_of c =
    if leb b'0' c && leb c b'9'
    then c - b'0'
    else if leb b'a' c && leb c b'z'
    then c - b'a' + 10
    else if leb b'A' c && leb c b'Z'
    then c - b'A' + 10
    else 99

unfoldable pub digits_in : ℕ → ℕ → Bytes → ℕ
digits_in base n [] = n
digits_in base n (c ∷ cs) =
    if ltb (value_of c) base then digits_in base (n * base + value_of c) cs else n

-- The digits behind a sign: `0x` and a digit, a leading 0, or decimal.
unfoldable pub based : Bytes → ℕ
unfolding digits_in
based [] = 0
based (c ∷ cs) =
    if c == b'0'
    then (elim cs [
      | [] ↦ 0
      | x ∷ r ↦
          if (x == b'x' || x == b'X') && ltb (value_of (get_or r 0 0)) 16
          then digits_in 16 0 r
          else digits_in 8 0 (x ∷ r)
    ])
    else digits_in 10 0 (c ∷ cs)

abbrev pub ulong_max : ℕ
ulong_max = 2 ^ 64 - 1

-- `strtoul(text, NULL, 0)` as a `uint16_t`: the value is limited to `ULONG_MAX`, and a minus sign
-- negates it.
unfoldable pub strtoul16 : Bytes → ℕ
unfolding based
strtoul16 [] = 0
strtoul16 (c ∷ cs) =
    let rest = strtoul16 cs in
    if isspace c
    then rest
    else if c == b'-'
    then (if ltb ulong_max (based cs)
        then ulong_max % 65536
        else (65536 - based cs % 65536) % 65536)
    else (let n = based (if c == b'+' then cs else c ∷ cs) in
        (if ltb ulong_max n then ulong_max else n) % 65536)

-- Up to a NUL, a character that stops, or the end of the places: what was passed, and the text from
-- there on.
unfoldable pub pass_until : (ℕ → Bool) → ℕ → Bytes → Result (Bytes × Bytes)
pass_until stops room [] = fault unset
pass_until stops zero (c ∷ cs) = ok ([], c ∷ cs)
pass_until stops (suc room) (c ∷ cs) =
    let rest = pass_until stops room cs in
    if c == 0 || stops c then ok ([], c ∷ cs) else (rest >>= λ r. ok (c ∷ r.0, r.1))

abbrev pub ends_port : ℕ → Bool
ends_port c = c == b'/' || c == b' ' || c == 13 || c == 10

abbrev pub ends_host : Bool → ℕ → Bool
ends_host true c = c == b':' || c == b'/' || c == b' '
ends_host false c = c == b':' || c == b'/'

-- `sizeof(host) - 1`
abbrev pub host_room : ℕ
host_room = 127

pub record HttpTarget : Type 0 where
  pub host : Bytes
  pub port : ℕ
  pub url : Bytes

-- The parse of `host:port` in both branches, from `url` on; `true` is that of `CONNECT`. `none` is
-- the error.
unfoldable pub parse_target : Bool → Bytes → Result (Option HttpTarget)
unfolding pass_until strtoul16
parse_target connect url = do
  h ← pass_until (ends_host connect) host_room url
  let after = get_or h.1 0 0
  if after == 0 || (connect && after == b' ') then ok none else (do
    u ← (if after == b':' then pass_until ends_port (length h.1) h.1 else ok ([], h.1))
    let port = if after == b':' then strtoul16 (drop 1 h.1) else 80
    let stop = get_or u.1 0 0
    if stop == 0 || stop == 13 || stop == 10
        then ok none
        else ok (some (record { host = h.0; port = port; url = u.1 })))

-- `url` at the first `/`, or `none` at the NUL.
unfoldable pub find_slash : Bytes → Result (Option Bytes)
find_slash [] = fault unset
find_slash (c ∷ cs) =
    if c == 0 then ok none else if c == b'/' then ok (some (c ∷ cs)) else find_slash cs

-- `url += 2`, and the parse.
abbrev pub after_slashes : Option Bytes → Result (Option HttpTarget)
after_slashes none = ok none
after_slashes (some url) =
    if ltb (length url) 2 then fault unset else parse_target false (drop 2 url)

-- The line, and what `rest` points at.
unfoldable pub split_line : Bytes → Bytes × Bytes
split_line [] = ([], [])
split_line (c ∷ cs) =
    let more = split_line cs in
    if c == 0 then ([], c ∷ cs) else if c == 10 then ([], cs) else (c ∷ more.0, more.1)

-- `report_error_to_client`, in its buffer of 512 bytes.
unfoldable pub report_error_to_client : Bytes → ProxyAction
report_error_to_client message =
    answer (take 511 (codes "HTTP/1.1 500 Internal Server Error " ++ (message ++ blank_line)))

-- Behind the parse.
unfoldable pub http_serve : (Target → Dialed) → Bool → Bytes → HttpTarget → List ProxyAction
unfolding split_line report_error_to_client
http_serve world connect cmd t =
    let target = host_name t.host t.port in
    let (line, after) = split_line t.url in
    let body = take (length after - 1) after in
    dial target ∷ elim (world target) [
      | no_address ↦ report_error_to_client (codes "empty ip") ∷ close_client ∷ []
      | refused text ↦ report_error_to_client text ∷ close_client ∷ []
      | connected ↦
          (if connect
            then answer (codes "HTTP/1.1 200 Connection Established" ++ blank_line) ∷ []
            else to_remote (take 511 (cmd ++ b' ' ∷ (line ++ 10 ∷ [])))
              ∷ (if length body == 0 then [] else to_remote body ∷ []))
          ++ relay (some target) ∷ close_client ∷ []
    ]

-- `http_proxy` from the text of the request on.
unfoldable pub http_request : (Target → Dialed) → Bytes → Result (List ProxyAction)
unfolding command_of parse_target find_slash http_serve report_error_to_client bytes_eq
http_request world text =
    let cmd = command_of 15 text in
    let buffer = text ++ 0 ∷ [] in
    if bytes_eq cmd (codes "CONNECT")
    then (if ltb (length buffer) 8
        then fault unset
        else (parse_target true (drop 8 buffer) >>= λ t. elim t [
          | none ↦ ok (report_error_to_client (codes "invalid CONNECT request") ∷ close_client ∷ [])
          | some q ↦ ok (http_serve world true cmd q)
        ]))
    else if bytes_eq cmd (codes "GET") || bytes_eq cmd (codes "POST")
    then (find_slash buffer >>= λ u. after_slashes u >>= λ t. elim t [
      | none ↦ ok (report_error_to_client (codes "invalid HTTP request") ∷ close_client ∷ [])
      | some q ↦ ok (http_serve world false cmd q)
    ])
    else ok (report_error_to_client (codes "This command is not supported") ∷ close_client ∷ [])

-- `http_proxy` with the bytes that were read before.
unfoldable pub http_proxy : (Target → Dialed) → Bytes → Socket → Result (List ProxyAction)
unfolding readtochar_r http_request
http_proxy world prefetch s =
    if leb 4095 (length prefetch)
    then ok []
    else (readtochar_r (4095 - length prefetch) s >>= λ r. elim r.0 [
      | none ↦ ok []
      | some more ↦ if length more == 0 then ok [] else http_request world (prefetch ++ more)
    ])
