-- ===== src/Netif.antt =====
-- The network interface of src/vnet.c: frames from lwIP to the tunnel and back. A chain of pbufs is
-- the list of their payloads; what `pbuf_alloc` gives is a parameter.
pub mod Frames
use termtunnel.Base.{
  ℕ, Bytes, Result, List, Option, ok, ◌>>=◌, ◌∷◌, [], ◌++◌, if◌then◌else◌, drop, ltb, not, length,
  fault, ◌+◌, aborted, out_of_bounds, unset, take, some, get_or, ◌*◌, ◌==◌, ◌||◌, none,
}
use termtunnel.Income.{Income}

-- `char buf[1514]`
abbrev pub frame_max : ℕ
frame_max = 1514

-- The loop of `memcpy`, with what is in the buffer.
unfoldable pub copy_chain : Bytes → List Bytes → Result Bytes
copy_chain kept [] = ok kept
copy_chain kept (payload ∷ q) =
    let rest = copy_chain (kept ++ payload) q in
    if ltb frame_max (length kept + length payload) then fault out_of_bounds else rest

-- Behind the loop: the test of the length comes after the copy, and the callback reads `tot_len`
-- bytes.
abbrev pub hand_over : ℕ → Bytes → Result Bytes
hand_over tot_len buf =
    if not (ltb tot_len 2000)
    then fault aborted
    else if ltb (length buf) tot_len
    then fault unset
    else ok (take tot_len buf)

-- `low_level_output`: the frame that the callback gets.
unfoldable pub low_level_output : List Bytes → ℕ → Result Bytes
unfolding copy_chain
low_level_output p tot_len = copy_chain [] p >>= λ buf. hand_over tot_len buf

-- `low_level_input`: the payloads of a chain of these lengths, filled from the frame.
unfoldable pub fill_chain : Bytes → List ℕ → Result (List Bytes)
fill_chain buf [] = ok []
fill_chain buf (len ∷ q) =
    let rest = fill_chain (drop len buf) q in
    if ltb (length buf) len then fault out_of_bounds else (rest >>= λ l. ok (take len buf ∷ l))

-- What becomes of a frame: `input` of the interface takes the chain, or it is freed.
pub data Incoming : Type 0 where
  no_memory : Incoming
  to_input : List Bytes → Incoming
  other_packet : Incoming

abbrev pub ethtype_ip : ℕ
ethtype_ip = 0x0800

abbrev pub ethtype_arp : ℕ
ethtype_arp = 0x0806

-- `vnet_data_income` with the lengths that `pbuf_alloc` gives. The header is read from the first
-- pbuf.
unfoldable pub vnet_data_income : Option (List ℕ) → Bytes → Result Incoming
unfolding fill_chain
vnet_data_income none buf = ok no_memory
vnet_data_income (some lens) buf = do
  p ← fill_chain buf lens
  let head = get_or p 0 []
  let kind = get_or head 12 0 * 256 + get_or head 13 0
  if ltb (length head) 14
      then fault out_of_bounds
      else if kind == ethtype_ip || kind == ethtype_arp
      then ok (to_input p)
      else ok other_packet
