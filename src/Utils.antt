-- ===== src/Utils.antt =====
-- src/utils.c.
use termtunnel.Vnet.{SocketWrite, wrote, write_failed}
use termtunnel.Base.{
  Bytes, ◌∷◌, ◌++◌, codes, List, Result, ok, fault, out_of_fuel, drop, ◌>>=◌, take, [],
}

abbrev pub green_prefix : Bytes
green_prefix = 27 ∷ codes "[32;42m"

abbrev pub green_postfix : Bytes
green_postfix = 27 ∷ codes "[0m"

-- The bytes of the result; `*result_len` is their number.
unfoldable pub green_encode : Bytes → Bytes
green_encode buf = green_prefix ++ (buf ++ green_postfix)

-- `writen`: the bytes that are written, on what the calls of `write` return. It writes again after
-- every failure.
unfoldable pub writen : Bytes → List SocketWrite → Result (Bytes × List SocketWrite)
writen [] ws = ok ([], ws)
writen (a ∷ b) [] = fault out_of_fuel
writen (a ∷ b) (write_failed ∷ ws) = writen (a ∷ b) ws
writen (a ∷ b) (wrote k ∷ ws) = writen (drop k (a ∷ b)) ws >>= λ r. ok (take k (a ∷ b) ++ r.0, r.1)
