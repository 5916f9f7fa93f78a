-- ===== src/Netif/Frames.antt =====
-- Chains of pbufs and frames in src/vnet.c.
use termtunnel.Base.{
  ℕ, Bytes, List, ◌<◌, get_or, length, ◌∷◌, ◌≡◌, take, ◌*◌, ◌≤◌, flatten, ok, arith, ◌+◌, suc,
  if◌then◌else◌, ◌==◌, [], leb, le→ltb, ◌||◌, zero, fault, drop, true, ◌++◌, refl, out_of_bounds,
  length-drop, some, append-nil, Bool-cases, ap, length-take, length-append, inl, ◌∙◌, ltb, leb→le,
  take-append-drop, ltb→lt, lt→ltb, false, take_whole, inr, ltb→le, append_assoc,
}
use termtunnel.Netif.{
  hand_over, frame_max, copy_chain, low_level_output, fill_chain, vnet_data_income, to_input,
  ethtype_ip, ethtype_arp,
}

copy_chain_bounded :
    (kept : Bytes) (ps : List Bytes)
    → length kept ≤ frame_max
    → copy_chain kept ps ≡ (
        if leb (length kept + length (flatten ps)) frame_max
        then ok (kept ++ flatten ps)
        else fault out_of_bounds)
unfolding copy_chain
copy_chain_bounded kept [] l =
    let fits : leb (length kept + 0) frame_max ≡ true = ground arith in
    rw (fits, append-nil kept) refl
copy_chain_bounded kept (p ∷ ps) l =
    let whole = length-append p (flatten ps) in
    elim (Bool-cases (ltb frame_max (length kept + length p))) [
      | inl over ↦
          let o = ltb→lt frame_max (length kept + length p) over in
          let long : leb (length kept + length (p ++ flatten ps)) frame_max ≡ false =
            ground (arith, whole) in
          rw (over, long) refl
      | inr fits ↦
          let f = ltb→le frame_max (length kept + length p) fits in
          let rest = copy_chain_bounded (kept ++ p) ps (omega (arith, length-append kept p)) in
          let sums : length (kept ++ p) + length (flatten ps)
              ≡ length kept + length (p ++ flatten ps) =
            omega (arith, length-append kept p, whole) in
          rw (fits, rest, sums, append_assoc kept p (flatten ps)) refl
    ]

-- A chain of pbufs of any number and any lengths, with the length of them all: `low_level_output`
-- hands exactly their bytes to its callback when they are at most 1514, and writes outside its
-- buffer when they are more.
pub low_level_output_bounded :
    (ps : List Bytes)
    → low_level_output ps (length (flatten ps))
      ≡ (if leb (length (flatten ps)) 1514 then ok (flatten ps) else fault out_of_bounds)
unfolding low_level_output
low_level_output_bounded ps =
    let zero_more : 0 + length (flatten ps) ≡ length (flatten ps) = omega arith in
    let copied : copy_chain [] ps
        ≡ (if leb (length (flatten ps)) 1514 then ok (flatten ps) else fault out_of_bounds) =
      copy_chain_bounded [] ps (omega arith)
      ∙ ap (λ n. if leb n 1514 then ok (flatten ps) else fault out_of_bounds) zero_more in
    elim (Bool-cases (leb (length (flatten ps)) 1514)) [
      | inl fits ↦ rw (copied, fits) (handed (flatten ps) (leb→le (length (flatten ps)) 1514 fits))
      | inr over ↦ rw (copied, over) refl
    ]
  where
    handed : (frame : Bytes) → length frame ≤ 1514 → hand_over (length frame) frame ≡ ok frame
    handed frame f =
        let short = lt→ltb (length frame) 2000 (omega arith) in
        let enough = le→ltb (length frame) (length frame) (omega arith) in
        rw (short, enough, take_whole frame) refl

abbrev pub total : List ℕ → ℕ
total [] = 0
total (n ∷ ns) = n + total ns

fill_chain_whole :
    (buf : Bytes) (lens : List ℕ)
    → total lens ≡ length buf
    → (l : List Bytes) × (fill_chain buf lens ≡ ok l) × (flatten l ≡ buf)
unfolding fill_chain
fill_chain_whole [] [] e = ([], refl, refl)
fill_chain_whole (a ∷ buf) [] e = absurd (omega arith)
fill_chain_whole buf (n ∷ ns) e =
    let enough = le→ltb (length buf) n (omega arith) in
    let (l, ran, same) = fill_chain_whole (drop n buf) ns (omega (arith, length-drop n buf)) in
    (take n buf ∷ l, rw (enough, ran) refl, ap (λ t. take n buf ++ t) same ∙ take-append-drop n buf)

get_or-take : (i n : ℕ) (xs : Bytes) → i < n → get_or (take n xs) i 0 ≡ get_or xs i 0
get_or-take i zero xs h = absurd (omega arith)
get_or-take i (suc n) [] h = refl
get_or-take zero (suc n) (x ∷ xs) h = refl
get_or-take (suc i) (suc n) (x ∷ xs) h = get_or-take i n xs (omega arith)

-- The type in an Ethernet frame.
abbrev pub ethertype : Bytes → ℕ
ethertype frame = get_or frame 12 0 * 256 + get_or frame 13 0

-- A frame of IP or ARP of at most 1514 bytes, in any chain of pbufs on one side, and any chain
-- whose lengths sum to that of the frame on the other, the first of which holds its header:
-- `low_level_output` hands over exactly the frame, and `vnet_data_income` passes exactly its bytes,
-- in that chain, on to the stack.
pub vnet_data_income-low_level_output :
    (ps : List Bytes) (n : ℕ) (ns : List ℕ)
    → length (flatten ps) ≤ 1514
    → 14 ≤ n
    → total (n ∷ ns) ≡ length (flatten ps)
    → (ethertype (flatten ps) == ethtype_ip || ethertype (flatten ps) == ethtype_arp) ≡ true
    → (chain : List Bytes) × (low_level_output ps (length (flatten ps)) ≡ ok (flatten ps))
      × (vnet_data_income (some (n ∷ ns)) (flatten ps) ≡ ok (to_input chain))
      × (flatten chain ≡ flatten ps)
unfolding vnet_data_income fill_chain
vnet_data_income-low_level_output ps n ns small header e kind =
    let frame = flatten ps in
    let (rest, ran, same) =
      fill_chain_whole (drop n frame) ns (omega (arith, length-drop n frame)) in
    let enough = le→ltb (length frame) n (omega arith) in
    let fits : leb (length frame) 1514 ≡ true = ground arith in
    let head =
      le→ltb (length (take n frame)) 14 (omega (arith, length-take n frame (omega arith))) in
    (
      take n frame ∷ rest,
      low_level_output_bounded ps ∙ rw fits refl,
      rw
          (
            enough,
            ran,
            head,
            get_or-take 12 n frame (omega arith),
            get_or-take 13 n frame (omega arith),
            kind,
          )
          refl,
      ap (λ t. take n frame ++ t) same ∙ take-append-drop n frame,
    )
