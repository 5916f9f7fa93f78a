-- ===== src/Base64.antt =====
-- The interface of thirdparty/base64.c, which the program links. `none` stands for NULL or for an
-- empty result, which the callers treat alike where they read it.
use termtunnel.Base.{Bytes, Option, ℕ, ◌≡◌, ◌≢◌, some, All, [], ◌++◌, ◌∷◌}

pub record Base64 : Type 0 where
  pub base64_encode : Bytes → Option Bytes
  pub base64_decode : Bytes → Option Bytes

-- A byte that may stand in coded text: none of the alphabet is an escape, a mark or a line end.
pub record IsCoded (a : ℕ) : Type 0 where
  pub not_esc : a ≢ 27
  pub not_mark : a ≢ b'!'
  pub not_newline : a ≢ b'\n'
  pub not_nul : a ≢ 0

-- What the program relies on, for the buffers that satisfy `Fits` (their coding does not run out of
-- memory): coded text uses the alphabet, and decoding undoes it and passes over a `!` behind it.
pub record IsBase64 (codec : Base64) (Fits : Bytes → Type 0) : Type 0 where
  pub encodes :
      (x : Bytes)
      → Fits x
      → (t : Bytes) × (codec.base64_encode x ≡ some t)
        × All IsCoded t
        × (t ≢ [])
        × (codec.base64_decode t ≡ some x)
        × (codec.base64_decode (t ++ b'!' ∷ []) ≡ some x)
