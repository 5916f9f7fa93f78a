-- ===== src/Agentcall.antt =====
-- The calls of the agent in src/agentcall.c: for the arguments of a oneshot run, and to listen on a
-- port. `malloc` and `strdup` succeed, and a connection that is made stands.
pub mod Arguments
pub mod Forward
use termtunnel.Base.{
  ℕ, List, Bytes, Result, length, Option, ◌++◌, ok, ◌>>=◌, flatten, some, map, [], ◌∷◌, suc, none,
  if◌then◌else◌, leb, zero, ◌^◌, ◌||◌, ltb, take, ◌==◌, ◌-◌, Bool, ◌*◌, false, ◌+◌, ◌%◌,
}
use termtunnel.Words.{le_bytes, from_le}
use termtunnel.Decimal.{print_port, decimal_digit}
use termtunnel.Intent.{host_max}
use termtunnel.Repl.{isspace}
use termtunnel.Http.{ulong_max}
use termtunnel.Vnet.{
  vnet_tcp_connect_with_retry, vnet_readstring, vnet_readn, duplicate, Socket, read_chunk_size,
  map_some,
}

abbrev pub max_oneshot_argc : ℕ
max_oneshot_argc = 1024

-- The loop over the arguments.
unfoldable pub read_strings : ℕ → Socket → Result (Option (List Bytes))
unfolding vnet_readstring duplicate
read_strings zero s = ok (some [])
read_strings (suc n) s = vnet_readstring read_chunk_size s >>= λ r. elim r.0 [
  | none ↦ ok none
  | some buf ↦ duplicate buf >>= λ d. read_strings n r.1 >>= λ more. ok (map_some (λ l. d ∷ l) more)
]

-- The answer that `bootstrap_get_args` reads: the arguments that it leaves before it notifies the
-- event loop, or `none` where it returns early. `argc` is a pattern of 32 bits.
unfoldable pub bootstrap_get_args : Socket → Result (Option (List Bytes))
unfolding vnet_readn read_strings
bootstrap_get_args s = vnet_readn 4 s >>= λ r. elim r.0 [
  | none ↦ ok none
  | some b ↦
      if leb (2 ^ 31) (from_le b) || ltb max_oneshot_argc (from_le b)
      then ok none
      else read_strings (from_le b) r.1
]

-- What `agentcall_server_request` writes for `METHOD_GET_ARGS`.
unfoldable pub args_answer : List Bytes → Bytes
args_answer argv = le_bytes 4 (length argv) ++ flatten (map (λ a. a ++ 0 ∷ []) argv)

-- `snprintf` with `%s:%hu:%s:%hu` in the server's buffer.
unfoldable pub forward_text : Bytes → ℕ → Bytes → ℕ → Bytes
forward_text src_host src_port dst_host dst_port =
    take (read_chunk_size - 1)
      (src_host ++ b':' ∷ (print_port src_port ++ b':' ∷ (dst_host ++ b':' ∷ print_port dst_port)))

abbrev and_then {ℓ κ} : {A : Type ℓ} {B : Type κ} → Option A → (A → Option B) → Option B
and_then none next = none
and_then (some a) next = next a

-- `%63[^:]` and the `:` behind it.
unfoldable pub scan_set : ℕ → Bytes → Bytes × Bytes
scan_set zero text = ([], text)
scan_set (suc n) [] = ([], [])
scan_set (suc n) (c ∷ cs) =
    let rest = scan_set n cs in if c == b':' then ([], c ∷ cs) else (c ∷ rest.0, rest.1)

abbrev scan_colon : Bytes → Option Bytes
scan_colon [] = none
scan_colon (c ∷ cs) = if c == b':' then some cs else none

abbrev scan_host : Bytes → Option (Bytes × Bytes)
scan_host text =
    let got = scan_set (host_max - 1) text in if length got.0 == 0 then none else some got

abbrev pub starts_number : Bytes → Bool
starts_number [] = false
starts_number (c ∷ cs) = decimal_digit c

unfoldable pub scan_digits : ℕ → Bytes → ℕ × Bytes
scan_digits n [] = (n, [])
scan_digits n (c ∷ cs) =
    let rest = scan_digits (n * 10 + (c - b'0')) cs in if decimal_digit c then rest else (n, c ∷ cs)

abbrev unsigned : ℕ → Bytes → (ℕ → ℕ) → Option (ℕ × Bytes)
unsigned start text f =
    if starts_number text
    then some (f (scan_digits start text).0, (scan_digits start text).1)
    else none

-- `%hu`: white space, a sign and digits, as `strtoul` reads them.
unfoldable pub scan_hu : Bytes → Option (ℕ × Bytes)
unfolding scan_digits
scan_hu [] = none
scan_hu (c ∷ cs) =
    let rest = scan_hu cs in
    if isspace c
    then rest
    else if c == b'-'
    then unsigned 0 cs (λ n. if ltb ulong_max n then 65535 else (65536 - n % 65536) % 65536)
    else unsigned 0 (if c == b'+' then cs else c ∷ cs)
        (λ n. (if ltb ulong_max n then ulong_max else n) % 65536)

-- `sscanf` with `%63[^:]:%hu:%63[^:]:%hu`, where it converts all four.
unfoldable pub scan_forward : Bytes → Option (Bytes × ℕ × Bytes × ℕ)
unfolding scan_set scan_hu
scan_forward text = and_then (scan_host text) (λ a. and_then (scan_colon a.1) (λ t.
    and_then (scan_hu t) (λ p. and_then (scan_colon p.1) (λ u. and_then (scan_host u) (λ b.
      and_then (scan_colon b.1) (λ v. and_then (scan_hu v) (λ q. some (a.0, p.0, b.0, q.0))))))))

-- What both ends of a call do.
pub data CallAction : Type 0 where
  vnet_send : Bytes → CallAction
  vnet_close : CallAction
  lwip_writen : Bytes → CallAction
  portforward_static_start : Bytes → ℕ → Bytes → ℕ → CallAction
  lwip_close : CallAction

abbrev pub method_call_forward_static : ℕ
method_call_forward_static = 1

abbrev pub method_get_args : ℕ
method_get_args = 2

-- What the scanned text of a call makes the agent do.
abbrev pub forward_call : Option (Bytes × ℕ × Bytes × ℕ) → List CallAction
forward_call none = lwip_close ∷ []
forward_call (some f) = portforward_static_start f.0 f.1 f.2 f.3 ∷ lwip_close ∷ []

-- The agent with these arguments serves a connection. The calls of `lwip_writen` for the arguments
-- are one.
unfoldable pub agentcall_server_request : List Bytes → Socket → Result (List CallAction)
unfolding vnet_readn vnet_readstring duplicate scan_forward args_answer
agentcall_server_request argv s = vnet_readn 4 s >>= λ m. elim m.0 [
  | none ↦ ok (lwip_close ∷ [])
  | some method ↦ vnet_readstring read_chunk_size m.1 >>= λ r. elim r.0 [
    | none ↦ ok (lwip_close ∷ [])
    | some recv_buf ↦
        if from_le method == method_call_forward_static
        then (duplicate recv_buf >>= λ text. ok (forward_call (scan_forward text)))
        else if from_le method == method_get_args
        then ok (lwip_writen (args_answer argv) ∷ lwip_close ∷ [])
        else ok (lwip_close ∷ [])
  ]
]

-- `call_send_request` on what the tries to connect return.
unfoldable pub call_send_request : List (Option ℕ) → ℕ → Bytes → Result (List CallAction)
unfolding vnet_tcp_connect_with_retry
call_send_request tries method strbuf = vnet_tcp_connect_with_retry tries >>= λ r. elim r.0 [
  | none ↦ ok []
  | some fd ↦ ok (vnet_send (le_bytes 4 method) ∷ vnet_send (strbuf ++ 0 ∷ []) ∷ vnet_close ∷ [])
]
