-- ===== src/Intent/RoundTrip.antt =====
-- The server reads the struct of src/intent.h that `new_file_exchange_intent` of src/repl.c filled
-- in.
use termtunnel.Base.{
  ℕ, Bytes, All, length, ◌+◌, ◌≢◌, ◌≡◌, ◌≤◌, ◌<◌, take, ◌++◌, some, drop, ◌^◌, ◌∷◌, arith, ap, ok,
  length-append, sym, length-take, [], length-drop, ◌∙◌, refl, take-append_length, leb,
  drop-append_length, true, drop-drop, append-nil,
}
use termtunnel.Intent.{
  new_file_exchange_intent, read_file_exchange, fill_field, until_nul, path_max,
}
use termtunnel.Words.{le_bytes, length-le_bytes, from_le-le_bytes}

-- A C string that a field of `PATH_MAX` bytes holds.
pub record IsPath (s : Bytes) : Type 0 where
  pub no_nul : All (λ a. a ≢ 0) s
  pub fits : length s < path_max

until_nul-text : (s r : Bytes) → All (λ a. a ≢ 0) s → until_nul (s ++ 0 ∷ r) ≡ s
unfolding until_nul
until_nul-text [] r h = refl
until_nul-text (c ∷ s) r h = ground (arith, until_nul-text s r h.1)

-- A field that was filled in: its size is kept, and its text is read back.
pub fill_field-fits :
    (old s : Bytes)
    → All (λ a. a ≢ 0) s
    → length s < length old
    → (a : Bytes) × (fill_field old s ≡ some a) × (length a ≡ length old) × (until_nul a ≡ s)
unfolding fill_field
fill_field-fits old s h l =
    let a = s ++ 0 ∷ drop (length s + 1) old in
    (
      a,
      ground (arith, l),
      omega (arith, length-append s (0 ∷ drop (length s + 1) old), length-drop (length s + 1) old),
      until_nul-text s (drop (length s + 1) old) h,
    )

pub leb_of_le : {m n : ℕ} → m ≤ n → leb m n ≡ true
leb_of_le h = ground arith

pub front : (k : ℕ) (a b : Bytes) → length a ≡ k → (take k (a ++ b) ≡ a) × (drop k (a ++ b) ≡ b)
front k a b e = (
  ap (λ n. take n (a ++ b)) (sym e) ∙ take-append_length a b,
  ap (λ n. drop n (a ++ b)) (sym e) ∙ drop-append_length a b,
)

new_file_exchange_intent-fields :
    (memory src dst : Bytes) (trans_mode : ℕ) (a b : Bytes)
    → fill_field (take path_max memory) src ≡ some a
    → fill_field (take path_max (drop path_max memory)) dst ≡ some b
    → new_file_exchange_intent memory src dst trans_mode ≡ some (a ++ (b ++ le_bytes 4 trans_mode))
unfolding new_file_exchange_intent
new_file_exchange_intent-fields memory src dst trans_mode a b e f = ground (arith, e, f)

-- Paths that are C strings shorter than `PATH_MAX`, and a mode of 32 bits, are read as they were
-- written, whatever stood in the memory of the struct.
pub read_file_exchange-new_file_exchange_intent :
    (memory src dst : Bytes) (trans_mode : ℕ)
    → path_max + path_max + 4 ≤ length memory
    → IsPath src
    → IsPath dst
    → trans_mode < 256 ^ 4
    → (buf : Bytes) × (new_file_exchange_intent memory src dst trans_mode ≡ some buf)
      × (read_file_exchange buf
          ≡ ok (record { src_path = src; dst_path = dst; trans_mode = trans_mode }))
      × (length buf ≡ path_max + path_max + 4)
unfolding read_file_exchange
read_file_exchange-new_file_exchange_intent memory src dst trans_mode m s d t =
    let first = length-take path_max memory (omega arith) in
    let second =
      length-take path_max (drop path_max memory) (omega (arith, length-drop path_max memory)) in
    let (a, ea, la, ra) =
      fill_field-fits (take path_max memory) src s.no_nul (omega (arith, s.fits)) in
    let (b, eb, lb, rb) =
      fill_field-fits (take path_max (drop path_max memory)) dst d.no_nul (omega (arith, d.fits)) in
    let mode = le_bytes 4 trans_mode in
    let (t1, d1) = front path_max a (b ++ mode) (la ∙ first) in
    let (t2, d2) = front path_max b mode (lb ∙ second) in
    let (t3, d3) = front 4 mode [] (length-le_bytes 4 trans_mode) in
    let size : leb (path_max + path_max + 4) (length (a ++ (b ++ mode))) ≡ true = leb_of_le (
      omega
        (arith, length-append a (b ++ mode), length-append b mode, length-le_bytes 4 trans_mode)) in
    let d12 : drop (path_max + path_max) (a ++ (b ++ mode)) ≡ mode =
      sym (drop-drop path_max path_max (a ++ (b ++ mode))) ∙ ap (drop path_max) d1 ∙ d2 in
    let t4 : take 4 mode ≡ mode = ap (take 4) (sym (append-nil mode)) ∙ t3 in
    (
      a ++ (b ++ mode),
      new_file_exchange_intent-fields memory src dst trans_mode a b ea eb,
      rw (size, t1, d1, t2, d12, t4, ra, rb, from_le-le_bytes 4 trans_mode t) refl,
      omega
          (arith, length-append a (b ++ mode), length-append b mode, length-le_bytes 4 trans_mode),
    )
