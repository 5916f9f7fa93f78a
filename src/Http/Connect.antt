-- ===== src/Http/Connect.antt =====
-- What the HTTP proxy of src/socksproxy.c makes of a `CONNECT` request.
use termtunnel.Base.{
  ℕ, Bytes, All, ◌≡◌, true, false, ◌<◌, ◌++◌, ◌∷◌, arith, ◌*◌, ◌+◌, ◌-◌, [], ◌≤◌, ltb, ◌≢◌, subst,
  Bool, refl, lt→ltb, ne→==, length, ◌==◌, ok, ◌||◌, suc, zero, some, List, codes, inl, inr, ◌∙◌,
  ap, take, sym, length-append, append_assoc, le→ltb,
}
use termtunnel.Http.{
  http_request, digits_in, based, strtoul16, pass_until, parse_target, ends_host, ends_port,
  host_room, command_of, http_serve, value_of, blank_line, refused, report_error_to_client,
}
use termtunnel.Socks.{
  Target, Dialed, ProxyAction, answer, dial, relay, close_client, connected, host_name, no_address,
}
use termtunnel.Decimal.{
  digit_plain, IsDigits, digit_bounds, print_port, worth, decimal_digit, worth-print_decimal,
  All-print_decimal, print_decimal-Leads, print_decimal,
}
use termtunnel.Flow.{refused}

digit_value : (c : ℕ) → decimal_digit c ≡ true → value_of c ≡ c - b'0'
digit_value c h = let b = digit_bounds c h in rw h refl

digit_less : (c : ℕ) → decimal_digit c ≡ true → ltb (c - b'0') 10 ≡ true
digit_less c h = let b = digit_bounds c h in lt→ltb (c - b'0') 10 (omega arith)

digits_in-worth :
    (n : ℕ) (xs : Bytes) (rest : Bytes)
    → IsDigits xs
    → digits_in 10 n (xs ++ b' ' ∷ rest) ≡ worth n xs
unfolding digits_in worth
digits_in-worth n [] rest h = refl
digits_in-worth n (c ∷ xs) rest h =
    let ih = digits_in-worth (n * 10 + (c - b'0')) xs rest h.1 in
    rw (digit_value c h.0, digit_less c h.0, ih) refl

-- Digits that do not start with 0 are read in base 10.
based-worth :
    (first : ℕ) (others rest : Bytes)
    → IsDigits (first ∷ others)
    → first ≢ b'0'
    → based (first ∷ (others ++ b' ' ∷ rest)) ≡ worth 0 (first ∷ others)
unfolding based
based-worth first others rest h n =
    rw (ne→== first b'0' n, digits_in-worth 0 (first ∷ others) rest h) refl

-- What `strtoul` reads of a port is the port.
strtoul16-print_port :
    (n : ℕ) (rest : Bytes) → n < 65536 → strtoul16 (print_port n ++ b' ' ∷ rest) ≡ n
unfolding strtoul16
strtoul16-print_port zero rest h = unfold based in unfold digits_in in unfold print_decimal in refl
strtoul16-print_port (suc n) rest h =
    let l = print_decimal-Leads 4 (suc n) (omega arith) in
    let v = worth-print_decimal 5 (suc n) (omega arith) in
    let d = subst IsDigits l.starts (All-print_decimal 5 (suc n)) in
    let first_ne : l.first ≢ b'0' = elim l.not_padded [
      | inl p ↦ p
      | inr z ↦ absurd (omega arith)
    ] in
    let reads : based (l.first ∷ (l.others ++ b' ' ∷ rest)) ≡ suc n =
      based-worth l.first l.others rest d first_ne ∙ ap (worth 0) (sym l.starts) ∙ v in
    let plain = digit_plain l.first d.0 in
    rw (l.starts, plain.0, plain.1, plain.2, reads) (ground arith)

-- Characters that do not stop.
abbrev pub Passes : (ℕ → Bool) → Bytes → Type 0
Passes stops = All (λ c. (c == 0 || stops c) ≡ false)

pass_until-Passes :
    (stops : ℕ → Bool) (room : ℕ) (text : Bytes) (stop : ℕ) (rest : Bytes)
    → Passes stops text
    → (stop == 0 || stops stop) ≡ true
    → length text ≤ room
    → pass_until stops room (text ++ stop ∷ rest) ≡ ok (text, stop ∷ rest)
unfolding pass_until
pass_until-Passes stops zero [] stop rest h s r = refl
pass_until-Passes stops (suc room) [] stop rest h s r = rw s refl
pass_until-Passes stops zero (c ∷ cs) stop rest h s r = absurd (omega arith)
pass_until-Passes stops (suc room) (c ∷ cs) stop rest h s r =
    rw (h.0, pass_until-Passes stops room cs stop rest h.1 s (omega arith)) refl

digit_stops : (c : ℕ) → decimal_digit c ≡ true → (c == 0 || ends_port c) ≡ false
digit_stops c h = let b = digit_bounds c h in ground arith

digits_pass : (xs : Bytes) → IsDigits xs → Passes ends_port xs
digits_pass [] h = tt
digits_pass (c ∷ cs) h = (digit_stops c h.0, digits_pass cs h.1)

parse_connect :
    (host : Bytes) (port : ℕ) (tail : Bytes)
    → Passes (ends_host true) host
    → length host ≤ 127
    → port < 65536
    → parse_target true (host ++ b':' ∷ (print_port port ++ b' ' ∷ tail))
      ≡ ok (some (record { host = host; port = port; url = b' ' ∷ tail }))
unfolding parse_target
parse_connect host port tail h room small =
    let name =
      pass_until-Passes (ends_host true) host_room host b':' (print_port port ++ b' ' ∷ tail) h refl
        room in
    let digits =
      pass_until-Passes ends_port (length (b':' ∷ (print_port port ++ b' ' ∷ tail)))
        (b':' ∷ print_port port) b' ' tail
        (refl, digits_pass (print_port port) (All-print_decimal 5 port)) refl
        (omega (arith, length-append (print_port port) (b' ' ∷ tail))) in
    rw (name, digits, strtoul16-print_port port tail small) refl

-- What a client that asks for `CONNECT` to this host gets.
abbrev pub connect_actions : (Target → Dialed) → Bytes → ℕ → List ProxyAction
connect_actions world host port = dial (host_name host port) ∷ elim (world (host_name host port)) [
  | no_address ↦
      answer (codes "HTTP/1.1 500 Internal Server Error empty ip" ++ blank_line) ∷ close_client ∷ []
  | refused text ↦
      answer (take 511 (codes "HTTP/1.1 500 Internal Server Error " ++ (text ++ blank_line)))
      ∷ close_client
      ∷ []
  | connected ↦
      answer (codes "HTTP/1.1 200 Connection Established" ++ blank_line)
      ∷ relay (some (host_name host port))
      ∷ close_client
      ∷ []
]

-- The answers by the way the connection goes.
connect_serves :
    (world : Target → Dialed) (host : Bytes) (port : ℕ) (tail : Bytes) (d : Dialed)
    → world (host_name host port) ≡ d
    → http_serve world true
        (codes "CONNECT")
        (record { host = host; port = port; url = b' ' ∷ tail })
      ≡ connect_actions world host port
unfolding http_serve report_error_to_client
connect_serves world host port tail no_address e = rw e refl
connect_serves world host port tail (refused text) e = rw e refl
connect_serves world host port tail connected e = rw e refl

ends_text :
    (host : Bytes) (port : ℕ) (tail : Bytes)
    → (host ++ b':' ∷ (print_port port ++ b' ' ∷ tail)) ++ 0 ∷ []
      ≡ host ++ b':' ∷ (print_port port ++ b' ' ∷ (tail ++ 0 ∷ []))
ends_text host port tail =
    append_assoc host (b':' ∷ (print_port port ++ b' ' ∷ tail)) (0 ∷ [])
    ∙ ap (λ t. host ++ b':' ∷ t) (append_assoc (print_port port) (b' ' ∷ tail) (0 ∷ []))

-- A request `CONNECT`, from its text on.
pub http_request_connects :
    (world : Target → Dialed) (host : Bytes) (port : ℕ) (tail : Bytes)
    → Passes (ends_host true) host
    → length host ≤ 127
    → port < 65536
    → http_request world (codes "CONNECT " ++ (host ++ b':' ∷ (print_port port ++ b' ' ∷ tail)))
      ≡ ok (connect_actions world host port)
unfolding http_request command_of
http_request_connects world host port tail h room small =
    let parsed = parse_connect host port (tail ++ 0 ∷ []) h room small in
    let served =
      connect_serves world host port (tail ++ 0 ∷ []) (world (host_name host port)) refl in
    let big : ltb
          (length (codes "CONNECT " ++ (host ++ b':' ∷ (print_port port ++ b' ' ∷ tail)) ++ 0 ∷ []))
          8
        ≡ false =
      le→ltb _ 8 (omega arith) in
    rw (big, ends_text host port tail, parsed, served) refl
