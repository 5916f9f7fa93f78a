-- ===== src/Portforward/Dials.antt =====
-- Both sides of a forwarded connection: what `portforward_static_server_pipe` of src/portforward.c
-- sends, and what `portforward_static_server_request` connects to.
use termtunnel.Base.{
  ℕ, Bytes, List, All, [], ◌++◌, ◌≡◌, flatten, length, ok, ◌∷◌, some, drop, ◌-◌, if◌then◌else◌, ltb,
  ◌==◌,
}
use termtunnel.Portforward.{port_loop, PipeAction, vnet_send, pipe_lwip_socket_and_socket_pair}
use termtunnel.Vnet.Reads.{arrivals, NotEmpty}
use termtunnel.Socks.{
  Target, Dialed, ProxyAction, no_address, refused, connected, host_name, dial, relay, close_client,
}

-- What goes over the connection before the relay starts.
abbrev pub sent_ahead : List PipeAction → Bytes
sent_ahead [] = []
sent_ahead (vnet_send b ∷ more) = b ++ sent_ahead more
sent_ahead (pipe_lwip_socket_and_socket_pair ∷ more) = []
sent_ahead (_ ∷ more) = sent_ahead more

-- Over these pieces, one byte is lost where a piece ends behind `n` bytes and the next one has more
-- than one byte.
next_is_long : List Bytes → ℕ
next_is_long [] = 0
next_is_long (x ∷ xs) = if ltb 1 (length x) then 1 else 0

unfoldable pub lost_behind : ℕ → List Bytes → ℕ
unfolding next_is_long
lost_behind n [] = 0
lost_behind n (x ∷ xs) =
    let later = lost_behind (n - length x) xs in
    if ltb (length x) n then later else if length x == n then next_is_long xs else 0

-- The two bytes of the port; a byte behind them may be lost.
record GotPort (xs : List Bytes) (hi lo : ℕ) (rest : Bytes) : Type 0 where
  bytes : Bytes
  more : List Bytes
  ran : port_loop [] (arrivals xs) ≡ ok (some (hi ∷ lo ∷ bytes), arrivals more)
  left : flatten more ≡ drop (lost_behind 1 xs) rest
  good : All NotEmpty more

abbrev pub dial_actions : (Target → Dialed) → Bytes → ℕ → List ProxyAction
dial_actions world host port = dial (host_name host port) ∷ elim (world (host_name host port)) [
  | no_address ↦ close_client ∷ []
  | refused text ↦ close_client ∷ []
  | connected ↦ relay (some (host_name host port)) ∷ close_client ∷ []
]
