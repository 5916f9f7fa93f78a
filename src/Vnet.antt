-- ===== src/Vnet.antt =====
-- Sockets of the network stack, as src/vnet.c uses them: reads that come in pieces, writes that are
-- cut short, and connections that are tried again. lwIP itself is a library: what its calls return
-- is given as a list.
pub mod Reads
pub mod Writes
pub mod Connect
pub mod Endpoints
use termtunnel.Base.{
  ℕ, Bytes, Bool, Option, Result, ◌∷◌, List, some, ok, [], map, fault, length, suc, ◌++◌,
  out_of_bounds, out_of_fuel, none, ◌-◌, if◌then◌else◌, drop, ◌*◌, ◌==◌, ltb, take, ◌||◌, ◌>>=◌,
  leb, zero,
}

-- What a call of `lwip_read` returns: bytes, 0, or -1 with an errno that is (`true`) or is not
-- EINTR or EAGAIN. A read that asks for less than the next bytes leaves the rest; at the end of a
-- list no call returns.
pub data SocketRead : Type 0 where
  arrived : Bytes → SocketRead
  closed : SocketRead
  failed : Bool → SocketRead

-- `stale` says that errno is EINTR or EAGAIN, which no read that succeeds changes.
pub record Socket : Type 0 where
  pub stale : Bool
  pub reads : List SocketRead

abbrev pub map_some {ℓ} : {A : Type ℓ} → (A → A) → Option A → Option A
map_some f none = none
map_some f (some a) = some (f a)

-- `vnet_readn`: `none` is the result 0. After a read that failed it reads again.
unfoldable pub readn_loop : ℕ → Bool → List SocketRead → Result (Option Bytes × Socket)
readn_loop zero stale rs = ok (some [], record { stale = stale; reads = rs })
readn_loop (suc n) stale [] = fault out_of_fuel
readn_loop (suc n) stale (closed ∷ rs) = ok (none, record { stale = stale; reads = rs })
readn_loop (suc n) stale (failed again ∷ rs) = readn_loop (suc n) again rs
readn_loop (suc n) stale (arrived b ∷ rs) =
    let rest = readn_loop (suc n - length b) stale rs in
    if length b == 0
    then ok (none, record { stale = stale; reads = rs })
    else if ltb (suc n) (length b)
    then ok (some (take (suc n) b), record { stale = stale; reads = arrived (drop (suc n) b) ∷ rs })
    else (rest >>= λ r. ok (map_some (λ c. b ++ c) r.0, r.1))

unfoldable pub vnet_readn : ℕ → Socket → Result (Option Bytes × Socket)
unfolding readn_loop
vnet_readn n s = readn_loop n s.stale s.reads

-- The bytes one by one, as reads of size 1 return them.
abbrev pub one : ℕ → SocketRead
one a = arrived (a ∷ [])

unfoldable pub single : List SocketRead → List SocketRead
single [] = []
single (arrived [] ∷ rs) = closed ∷ single rs
single (arrived (a ∷ b) ∷ rs) = map one (a ∷ b) ++ single rs
single (closed ∷ rs) = closed ∷ single rs
single (failed again ∷ rs) = failed again ∷ single rs

-- `continue` goes to the condition of the `do` loop, which reads the byte before the next place.
abbrev continues : Bytes → Result (Option Bytes × Socket) → Result (Option Bytes × Socket)
continues [] rest = fault out_of_bounds
continues (a ∷ b) rest = rest

-- The rest of a read that was asked for less.
abbrev pub unread : Bytes → List SocketRead → List SocketRead
unread [] rs = rs
unread (a ∷ b) rs = arrived (a ∷ b) ∷ rs

-- The loop of `vnet_readstring`, with the places left, the bytes kept, and those of a read that are
-- still to be taken. The test of errno stands before that of the result.
unfoldable pub readstring_loop :
    ℕ → Bytes → Bool → Bytes → List SocketRead → Result (Option Bytes × Socket)
readstring_loop room kept stale (a ∷ b) rs =
    let again = readstring_loop room kept stale b rs in
    let rest = readstring_loop (room - 1) (kept ++ a ∷ []) stale b rs in
    if stale
    then continues kept again
    else if a == 0 || leb room 1
    then ok (some (kept ++ a ∷ []), record { stale = stale; reads = unread b rs })
    else rest
readstring_loop room kept stale [] [] = fault out_of_fuel
readstring_loop room kept stale [] (closed ∷ rs) =
    let rest = readstring_loop room kept stale [] rs in
    if stale then continues kept rest else ok (none, record { stale = stale; reads = rs })
readstring_loop room kept stale [] (failed again ∷ rs) =
    let rest = readstring_loop room kept again [] rs in
    if again then continues kept rest else ok (none, record { stale = again; reads = rs })
readstring_loop room kept stale [] (arrived [] ∷ rs) =
    let rest = readstring_loop room kept stale [] rs in
    if stale then continues kept rest else ok (none, record { stale = stale; reads = rs })
readstring_loop room kept stale [] (arrived (a ∷ b) ∷ rs) =
    readstring_loop room kept stale (a ∷ b) rs

unfoldable pub vnet_readstring : ℕ → Socket → Result (Option Bytes × Socket)
unfolding readstring_loop
vnet_readstring bufsize s = readstring_loop bufsize [] s.stale [] s.reads

abbrev pub read_chunk_size : ℕ
read_chunk_size = 4096

-- `strdup` of the buffer, which reads up to a NUL.
unfoldable pub duplicate : Bytes → Result Bytes
duplicate [] = fault out_of_bounds
duplicate (a ∷ r) = let rest = duplicate r in if a == 0 then ok [] else (rest >>= λ d. ok (a ∷ d))

-- What a call of `lwip_write` returns: a count, or -1.
pub data SocketWrite : Type 0 where
  wrote : ℕ → SocketWrite
  write_failed : SocketWrite

-- `lwip_writen`: the bytes that reach the connection. It writes again after every failure, and a
-- call never takes more than it is given. The test of the count is against `n`, not against what is
-- left, as in the source.
unfoldable pub writen_loop : Bytes → ℕ → List SocketWrite → Result (Bytes × List SocketWrite)
writen_loop [] n ws = ok ([], ws)
writen_loop (a ∷ b) n [] = fault out_of_fuel
writen_loop (a ∷ b) n (write_failed ∷ ws) = writen_loop (a ∷ b) n ws
writen_loop (a ∷ b) n (wrote k ∷ ws) =
    let rest = writen_loop (drop k (a ∷ b)) n ws in
    if k == n then ok (take k (a ∷ b), ws) else (rest >>= λ r. ok (take k (a ∷ b) ++ r.0, r.1))

unfoldable pub lwip_writen : Bytes → List SocketWrite → Result (Bytes × List SocketWrite)
unfolding writen_loop
lwip_writen buf ws = writen_loop buf (length buf) ws

-- `vnet_tcp_connect_with_retry` on what `vnet_tcp_connect` returns each time, `none` for a negative
-- result: the last result, and the microseconds slept in between. Only a result above 0 ends the
-- loop.
unfoldable pub connect_loop : ℕ → ℕ → Option ℕ → List (Option ℕ) → Result (Option ℕ × List ℕ)
connect_loop zero sleep ret tries = ok (ret, [])
connect_loop (suc left) sleep ret [] = fault out_of_fuel
connect_loop (suc left) sleep ret (some fd ∷ tries) =
    let again = connect_loop left (sleep * 2) (some fd) tries in
    if ltb 0 fd then ok (some fd, []) else (again >>= λ r. ok (r.0, sleep ∷ r.1))
connect_loop (suc left) sleep ret (none ∷ tries) =
    connect_loop left (sleep * 2) none tries >>= λ r. ok (r.0, sleep ∷ r.1)

unfoldable pub vnet_tcp_connect_with_retry : List (Option ℕ) → Result (Option ℕ × List ℕ)
unfolding connect_loop
vnet_tcp_connect_with_retry tries = connect_loop 10 1000 (some 0) tries
