-- ===== src/Agentcall/Forward.antt =====
-- The server of src/pipe.c asks the agent to listen on a port: the text of the call, and what the
-- agent makes of it.
use termtunnel.Base.{
  ℕ, Bytes, All, ◌≡◌, ◌<◌, ◌≢◌, false, if◌then◌else◌, ◌++◌, [], length, ◌==◌, ltb, some, ◌∷◌, ◌≤◌,
  arith, ◌*◌, subst, ap, ◌+◌, ◌%◌, suc, ne→==, ◌∙◌, sym, ◌-◌, append-nil, zero, refl, All-append,
  length-append, take_fits, List, Option, ok, flatten,
}
use termtunnel.Agentcall.{
  forward_text, scan_set, scan_digits, scan_hu, scan_forward, starts_number, vnet_send, vnet_close,
  portforward_static_start, lwip_close, agentcall_server_request, call_send_request,
  method_call_forward_static, false, [], length, ltb, some, ulong_max, suc, List, Option, ok,
  flatten, forward_call,
}
use termtunnel.Decimal.{
  digit_plain, print_port, worth, IsDigits, digit_bounds, worth-print_decimal, All-print_decimal,
  print_decimal-Leads, length-print_decimal,
}
use termtunnel.Vnet.Reads.{
  arrivals, NotEmpty, readn_loop_gets, vnet_readstring_gets, duplicate_text,
}
use termtunnel.Vnet.{vnet_readn, vnet_tcp_connect_with_retry, read_chunk_size}
use termtunnel.Words.{le_bytes, length-le_bytes, from_le-le_bytes}
use termtunnel.Intent.{host_max}
use termtunnel.Http.{ulong_max}

-- A name that the scan reads back: neither empty nor too long, without a NUL or a colon.
pub record IsName (s : Bytes) : Type 0 where
  pub no_nul : All (λ a. a ≢ 0) s
  pub no_colon : All (λ a. a ≢ b':') s
  pub some_text : s ≢ []
  pub fits : length s < host_max

scan_set_colon :
    (room : ℕ) (s rest : Bytes)
    → All (λ a. a ≢ b':') s
    → length s ≤ room
    → scan_set room (s ++ b':' ∷ rest) ≡ (s, b':' ∷ rest)
unfolding scan_set
scan_set_colon zero [] rest h l = refl
scan_set_colon zero (x ∷ s) rest h l = absurd (omega arith)
scan_set_colon (suc room) [] rest h l = refl
scan_set_colon (suc room) (x ∷ s) rest h l =
    rw (ne→== x b':' h.0, scan_set_colon room s rest h.1 (omega arith)) refl

scan_digits-worth :
    (n : ℕ) (ds rest : Bytes)
    → IsDigits ds
    → starts_number rest ≡ false
    → scan_digits n (ds ++ rest) ≡ (worth n ds, rest)
unfolding scan_digits worth
scan_digits-worth n [] [] h s = refl
scan_digits-worth n [] (c ∷ rest) h s = rw s refl
scan_digits-worth n (d ∷ ds) rest h s =
    rw (h.0, scan_digits-worth (n * 10 + (d - b'0')) ds rest h.1 s) refl

port_small : (n : ℕ) → n < 65536 → (if ltb ulong_max n then ulong_max else n) % 65536 ≡ n
port_small n h = ground arith

scan_hu-print_port :
    (n : ℕ) (rest : Bytes)
    → n < 65536
    → starts_number rest ≡ false
    → scan_hu (print_port n ++ rest) ≡ some (n, rest)
unfolding scan_hu worth
scan_hu-print_port n rest h s =
    let l = print_decimal-Leads 4 n (omega arith) in
    let v = worth-print_decimal 5 n (omega arith) in
    let d = subst IsDigits l.starts (All-print_decimal 5 n) in
    let plain = digit_plain l.first d.0 in
    let reads : scan_digits (0 * 10 + (l.first - b'0')) (l.others ++ rest) ≡ (n, rest) =
      scan_digits-worth (0 * 10 + (l.first - b'0')) l.others rest d.1 s
      ∙ ap (λ w. (w, rest)) (ap (worth 0) (sym l.starts) ∙ v) in
    rw (l.starts, plain.0, plain.1, plain.2, d.0, reads, port_small n h) refl

-- The scan reads the text back.
scan_forward-forward_text :
    (src dst : Bytes) (src_port dst_port : ℕ)
    → IsName src
    → IsName dst
    → src_port < 65536
    → dst_port < 65536
    → scan_forward
        (src ++ b':' ∷ (print_port src_port ++ b':' ∷ (dst ++ b':' ∷ print_port dst_port)))
      ≡ some (src, src_port, dst, dst_port)
unfolding scan_forward
scan_forward-forward_text src dst src_port dst_port p q u v =
    let a =
      scan_set_colon 63 src (print_port src_port ++ b':' ∷ (dst ++ b':' ∷ print_port dst_port))
        p.no_colon (omega (arith, p.fits)) in
    let b = scan_hu-print_port src_port (b':' ∷ (dst ++ b':' ∷ print_port dst_port)) u refl in
    let c = scan_set_colon 63 dst (print_port dst_port) q.no_colon (omega (arith, q.fits)) in
    let d =
      ap scan_hu (sym (append-nil (print_port dst_port))) ∙ scan_hu-print_port dst_port [] v refl in
    rw (a, some_bytes src p.some_text, b, c, some_bytes dst q.some_text, d) refl
  where
    some_bytes : (s : Bytes) → s ≢ [] → (length s == 0) ≡ false
    some_bytes [] n = absurd (n refl)
    some_bytes (x ∷ s) n = ground arith

digits_no_nul : (ds : Bytes) → IsDigits ds → All (λ a. a ≢ 0) ds
digits_no_nul [] h = tt
digits_no_nul (d ∷ ds) h =
    ((let b = digit_bounds d h.0 in λ z. absurd (omega (arith, b.0))), digits_no_nul ds h.1)

port_no_nul : (n : ℕ) → All (λ a. a ≢ 0) (print_port n)
port_no_nul n = digits_no_nul (print_port n) (All-print_decimal 5 n)

abbrev text_of : Bytes → ℕ → Bytes → ℕ → Bytes
text_of src src_port dst dst_port =
    src ++ b':' ∷ (print_port src_port ++ b':' ∷ (dst ++ b':' ∷ print_port dst_port))

colon : ◌≢◌ {A = ℕ} b':' 0
colon e = absurd (omega arith)

text_no_nul :
    (src dst : Bytes) (src_port dst_port : ℕ)
    → IsName src
    → IsName dst
    → All (λ a. a ≢ 0) (text_of src src_port dst dst_port)
text_no_nul src dst src_port dst_port p q =
    All-append (λ a. a ≢ 0) src _ p.no_nul
      (
        colon,
        All-append (λ a. a ≢ 0) (print_port src_port) _ (port_no_nul src_port)
            (colon, All-append (λ a. a ≢ 0) dst _ q.no_nul (colon, port_no_nul dst_port)),
      )

text_short :
    (src dst : Bytes) (src_port dst_port : ℕ)
    → IsName src
    → IsName dst
    → length (text_of src src_port dst dst_port) ≤ 140
text_short src dst src_port dst_port p q = omega (
  arith,
  p.fits,
  q.fits,
  length-append src (b':' ∷ (print_port src_port ++ b':' ∷ (dst ++ b':' ∷ print_port dst_port))),
  length-append (print_port src_port) (b':' ∷ (dst ++ b':' ∷ print_port dst_port)),
  length-append dst (b':' ∷ print_port dst_port),
  length-print_decimal 5 src_port,
  length-print_decimal 5 dst_port,
)

forward_text_whole :
    (src dst : Bytes) (src_port dst_port : ℕ)
    → IsName src
    → IsName dst
    → forward_text src src_port dst dst_port ≡ text_of src src_port dst dst_port
unfolding forward_text
forward_text_whole src dst src_port dst_port p q =
    take_fits 4095 (text_of src src_port dst dst_port)
      (omega (arith, text_short src dst src_port dst_port p q))

-- A port forwarded on the agent's side, between two names of at most 63 characters that are not
-- empty and have no colon, and ports below 65536. Once a try to connect has succeeded,
-- `call_send_request` returns and has sent the call with the text of the forward, and closed.
-- However these bytes are cut, as long as errno is not EINTR or EAGAIN from an earlier call, the
-- agent starts to listen on exactly this name and port, for
-- exactly this target.
pub agentcall_server_request-call_send_request :
    (tries : List (Option ℕ)) (fd : ℕ) (slept : List ℕ) (argv : List Bytes) (src dst : Bytes)
    (src_port dst_port : ℕ) (xs : List Bytes)
    → vnet_tcp_connect_with_retry tries ≡ ok (some fd, slept)
    → IsName src
    → IsName dst
    → src_port < 65536
    → dst_port < 65536
    → All NotEmpty xs
    → flatten xs
      ≡ le_bytes 4 method_call_forward_static ++ (forward_text src src_port dst dst_port ++ 0 ∷ [])
    → (call_send_request tries method_call_forward_static (forward_text src src_port dst dst_port)
        ≡ ok (
            vnet_send (le_bytes 4 method_call_forward_static)
            ∷ vnet_send (forward_text src src_port dst dst_port ++ 0 ∷ [])
            ∷ vnet_close
            ∷ []))
      × (agentcall_server_request argv (record { stale = false; reads = arrivals xs })
          ≡ ok (portforward_static_start src src_port dst dst_port ∷ lwip_close ∷ []))
unfolding call_send_request agentcall_server_request vnet_readn
agentcall_server_request-call_send_request tries fd slept argv src dst src_port dst_port xs c p q u
      v h e =
    let whole = forward_text_whole src dst src_port dst_port p q in
    let text = text_of src src_port dst dst_port in
    let clean_text = text_no_nul src dst src_port dst_port p q in
    let (more, ran, left, good) =
      readn_loop_gets xs 4 (le_bytes 4 1) (forward_text src src_port dst dst_port ++ 0 ∷ []) h e
        (length-le_bytes 4 1) in
    let (rest, read, nothing, fine) =
      vnet_readstring_gets read_chunk_size text [] more clean_text
        (omega (arith, text_short src dst src_port dst_port p q)) good
        (left ∙ ap (λ t. t ++ 0 ∷ []) whole) in
    (
      rw c refl,
      rw (ran, read, from_le-le_bytes 4 1 (omega arith), duplicate_text text clean_text)
          (ap (λ f. ok (forward_call f))
            (scan_forward-forward_text src dst src_port dst_port p q u v)),
    )
