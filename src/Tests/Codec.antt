-- ===== src/Tests/Codec.antt =====
-- A coding for the two bytes `hi`, as base64 codes them: an instance of the interface.
use termtunnel.Base.{
  ℕ, if◌then◌else◌, Bytes, ◌≢◌, bytes_eq, subst, codes, some, ◌≡◌, arith, none, All, length, refl,
  take, [], ◌+◌, ◌++◌, ◌<◌, ◌∷◌, sym,
}
use termtunnel.Base64.{Base64, IsBase64, IsCoded}
use termtunnel.Tunnel.{Carried}

abbrev pub codec : Base64
codec = record {
  base64_encode = λ x. if bytes_eq x (codes "hi") then some (codes "aGk=") else none;
  base64_decode = λ t. if bytes_eq (take 4 t) (codes "aGk=") then some (codes "hi") else none;
}

abbrev pub Fits : Bytes → Type 0
Fits x = x ≡ codes "hi"

coded : (a : ℕ) → a ≢ 27 → a ≢ b'!' → a ≢ b'\n' → a ≢ 0 → IsCoded a
coded a p q r s = record { not_esc = p; not_mark = q; not_newline = r; not_nul = s }

letters : All IsCoded (codes "aGk=")
letters = (
  coded b'a' (ground arith) (ground arith) (ground arith) (ground arith),
  (
    coded b'G' (ground arith) (ground arith) (ground arith) (ground arith),
    (
      coded b'k' (ground arith) (ground arith) (ground arith) (ground arith),
      (coded b'=' (ground arith) (ground arith) (ground arith) (ground arith), tt),
    ),
  ),
)

codes_hi :
    (t : Bytes) × (codec.base64_encode (codes "hi") ≡ some t)
    × All IsCoded t
    × (t ≢ [])
    × (codec.base64_decode t ≡ some (codes "hi"))
    × (codec.base64_decode (t ++ b'!' ∷ []) ≡ some (codes "hi"))
unfolding bytes_eq
codes_hi = (codes "aGk=", refl, letters, ground arith, refl, refl)

pub codec-IsBase64 : IsBase64 codec Fits
codec-IsBase64 = record {
  encodes = λ x e.
      subst
        (λ y.
          (t : Bytes) × (codec.base64_encode y ≡ some t)
          × All IsCoded t
          × (t ≢ [])
          × (codec.base64_decode t ≡ some y)
          × (codec.base64_decode (t ++ b'!' ∷ []) ≡ some y))
        (sym e) codes_hi;
}

short : (t : Bytes) → codec.base64_encode (codes "hi") ≡ some t → length t + 2 < 4000
unfolding bytes_eq
short t e = let f : codes "aGk=" ≡ t = ground arith in rw (← f) (omega arith)

pub hi-Carried : Carried codec Fits (codes "hi")
hi-Carried = record { fits = refl; some_bytes = ground arith; short = short }
