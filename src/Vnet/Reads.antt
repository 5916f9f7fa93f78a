-- ===== src/Vnet/Reads.antt =====
-- Reads of a socket that does not fail: `vnet_readn` and `vnet_readstring` of src/vnet.c, and a list
-- of pieces for the stream.
use termtunnel.Base.{
  ℕ, List, Bytes, map, ◌≢◌, length, suc, All, [], ◌<◌, flatten, ◌≡◌, ◌∷◌, ◌++◌, drop, false, ap, ok,
  ◌==◌, refl, arith, some, length-drop, Bool-cases, ◌-◌, ltb, append_assoc, inl, ltb→lt, inr,
  ltb→le, sym, ◌∙◌, take-append-drop, zero, get_or, ◌||◌, leb, length-append, subst, append-nil,
}
use termtunnel.Vnet.{
  SocketRead, readn_loop, single, readstring_loop, duplicate, arrived, one, vnet_readstring,
}
use termtunnel.Packet.Stream.{append_front}

-- Reads that bring at least one byte each.
abbrev pub arrivals : List Bytes → List SocketRead
arrivals = map arrived

abbrev pub NotEmpty : Bytes → Type 0
NotEmpty b = b ≢ []

not_empty : (b : ℕ) (bs : Bytes) → (length (b ∷ bs) == 0) ≡ false
not_empty b bs = ground arith

tail_left : (n b : ℕ) (bs : Bytes) → suc n < length (b ∷ bs) → drop (suc n) (b ∷ bs) ≢ []
tail_left n b bs h e = absurd (omega (arith, length-drop (suc n) (b ∷ bs), ap length e))

-- `vnet_readn` gets the next bytes, however they are cut.
pub readn_loop_gets :
    (xs : List Bytes) (n : ℕ) (a c : Bytes)
    → All NotEmpty xs
    → flatten xs ≡ a ++ c
    → length a ≡ n
    → (more : List Bytes) × (readn_loop n false (arrivals xs)
        ≡ ok (some a, record { stale = false; reads = arrivals more }))
      × (flatten more ≡ c)
      × All NotEmpty more
unfolding readn_loop
readn_loop_gets xs zero [] c h e k = (xs, refl, e, h)
readn_loop_gets xs zero (x ∷ a) c h e k = absurd (omega arith)
readn_loop_gets [] (suc n) [] c h e k = absurd (omega arith)
readn_loop_gets [] (suc n) (x ∷ a) c h e k = absurd (ground arith)
readn_loop_gets ([] ∷ xs) (suc n) a c h e k = absurd (h.0 refl)
readn_loop_gets ((b ∷ bs) ∷ xs) (suc n) a c h e k =
    elim (Bool-cases (ltb (suc n) (length (b ∷ bs)))) [
      | inl more ↦
          let l = ltb→lt (suc n) (length (b ∷ bs)) more in
          let (front, back) = append_front (suc n) (b ∷ bs) (flatten xs) a c (omega arith) k e in
          (
            drop (suc n) (b ∷ bs) ∷ xs,
            rw (not_empty b bs, more, front) refl,
            back,
            (tail_left n b bs l, h.1),
          )
      | inr less ↦
          let l = ltb→le (suc n) (length (b ∷ bs)) less in
          let (front, back) =
            append_front (length (b ∷ bs)) a c (b ∷ bs) (flatten xs) (omega arith) refl (sym e) in
          let rest = drop (length (b ∷ bs)) a in
          let (more, ran, left, good) =
            readn_loop_gets xs (suc n - length (b ∷ bs)) rest c h.1 (sym back)
              (length-drop (length (b ∷ bs)) a ∙ ap (λ m. m - length (b ∷ bs)) k) in
          let whole : (b ∷ bs) ++ rest ≡ a =
            ap (λ l. l ++ rest) (sym front) ∙ take-append-drop (length (b ∷ bs)) a in
          (more, rw (not_empty b bs, less, ran, whole) refl, left, good)
    ]

pub map-append : (xs ys : Bytes) → map one (xs ++ ys) ≡ map one xs ++ map one ys
map-append [] ys = refl
map-append (x ∷ xs) ys = ap (◌∷◌ (one x)) (map-append xs ys)

pub single-arrivals :
    (xs : List Bytes) → All NotEmpty xs → single (arrivals xs) ≡ map one (flatten xs)
unfolding single
single-arrivals [] h = refl
single-arrivals ([] ∷ xs) h = absurd (h.0 refl)
single-arrivals ((a ∷ b) ∷ xs) h = rw (single-arrivals xs h.1, map-append (a ∷ b) (flatten xs)) refl

goes_on : (a room : ℕ) → a ≢ 0 → 1 < room → (a == 0 || leb room 1) ≡ false
goes_on a room n l = ground arith

-- `vnet_readstring` gets a text with its NUL, and leaves what comes behind it.
pub readstring_loop_gets :
    (s kept rest b : Bytes) (xs : List Bytes) (after : List SocketRead) (room : ℕ)
    → All (λ a. a ≢ 0) s
    → length s < room
    → All NotEmpty xs
    → b ++ flatten xs ≡ s ++ 0 ∷ rest
    → (more : List Bytes) × (readstring_loop room kept false b (arrivals xs ++ after)
        ≡ ok (
          some (kept ++ (s ++ 0 ∷ [])),
          record { stale = false; reads = arrivals more ++ after },
        ))
      × (flatten more ≡ rest)
      × All NotEmpty more
unfolding readstring_loop
readstring_loop_gets s kept rest [] [] after room n l h e =
    absurd (omega (arith, ap length e, length-append s (0 ∷ rest)))
readstring_loop_gets s kept rest [] ([] ∷ xs) after room n l h e = absurd (h.0 refl)
readstring_loop_gets s kept rest [] ((c ∷ b) ∷ xs) after room n l h e =
    readstring_loop_gets s kept rest (c ∷ b) xs after room n l h.1 e
readstring_loop_gets [] kept rest (a ∷ []) xs after room n l h e =
    let zero_at : a ≡ 0 = ap (λ t. get_or t 0 0) e in (xs, rw zero_at refl, ap (drop 1) e, h)
readstring_loop_gets [] kept rest (a ∷ c ∷ b) xs after room n l h e =
    let zero_at : a ≡ 0 = ap (λ t. get_or t 0 0) e in
    ((c ∷ b) ∷ xs, rw zero_at refl, ap (drop 1) e, ((λ z. absurd (omega (arith, ap length z))), h))
readstring_loop_gets (x ∷ s) kept rest (a ∷ b) xs after room n l h e =
    let same : a ≡ x = ap (λ t. get_or t 0 0) e in
    let ih =
      readstring_loop_gets s (kept ++ a ∷ []) rest b xs after (room - 1) n.1 (omega arith) h
        (ap (drop 1) e) in
    let goes : (a == 0 || leb room 1) ≡ false =
      goes_on a room (subst (λ c. c ≢ 0) (sym same) n.0) (omega arith) in
    (ih.0, rw (goes, ih.1, same, append_assoc kept (x ∷ []) (s ++ 0 ∷ [])) refl, ih.2, ih.3)

-- The same, where the connection stays open.
pub vnet_readstring_gets :
    (size : ℕ) (s rest : Bytes) (xs : List Bytes)
    → All (λ a. a ≢ 0) s
    → length s < size
    → All NotEmpty xs
    → flatten xs ≡ s ++ 0 ∷ rest
    → (more : List Bytes) × (vnet_readstring size (record { stale = false; reads = arrivals xs })
        ≡ ok (some (s ++ 0 ∷ []), record { stale = false; reads = arrivals more }))
      × (flatten more ≡ rest)
      × All NotEmpty more
unfolding vnet_readstring
vnet_readstring_gets size s rest xs n l h e =
    let (more, ran, left, good) = readstring_loop_gets s [] rest [] xs [] size n l h e in
    (
      more,
      ap (readstring_loop size [] false []) (sym (append-nil (arrivals xs)))
          ∙ ran
          ∙ ap (λ r. ok (some (s ++ 0 ∷ []), record { stale = false; reads = r }))
              (append-nil (arrivals more)),
      left,
      good,
    )

pub duplicate_text : (s : Bytes) → All (λ a. a ≢ 0) s → duplicate (s ++ 0 ∷ []) ≡ ok s
unfolding duplicate
duplicate_text [] h = refl
duplicate_text (a ∷ s) h = ground (arith, duplicate_text s h.1)
