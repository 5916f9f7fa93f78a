-- ===== src/Fsm/Green.antt =====
-- `green_encode` of src/utils.c is undone by the machine of src/fsm.c, also when other output of the
-- terminal stands between the green pieces.
use termtunnel.Base.{
  Bytes, All, replicate, ◌≡◌, [], List, ◌∷◌, ◌≢◌, ok, flatten, false, true, map, ◌++◌, arith,
  append-nil, append_assoc, refl, Result, map_ok, fault, ap, ◌∙◌,
}
use termtunnel.Fsm.{
  CsiInfo, csi_digit, plaintext, csi_colors, esc, bg_param, fg_param, fsm_init, FsmContext,
  csi_zero,
}
use termtunnel.Fsm.Stream.{scan, Scanner, scan_byte, scan_in, scan_plain, scan-append, scanner_of}
use termtunnel.Utils.{green_encode, green_prefix, green_postfix}
use termtunnel.Fsm.Feed.{feed_all, feed_all-scan, fsm_init-IsIdle}

-- No byte begins an escape sequence.
abbrev pub NoEsc : Bytes → Type 0
NoEsc = All (λ a. a ≢ esc)

-- A scanner in plain text, with no colour set.
abbrev pub quiet : CsiInfo → Bytes → Scanner
quiet csi out = record { state = plaintext; bg = false; fg = false; csi = csi; out = out; skip = 0 }

abbrev green : CsiInfo → Bytes → Scanner
green csi out = record { state = plaintext; bg = true; fg = true; csi = csi; out = out; skip = 0 }

scan_noise :
    (csi : CsiInfo) (out bytes : Bytes)
    → NoEsc bytes
    → scan (quiet csi out) bytes ≡ ok (quiet csi out)
unfolding scan scan_byte scan_in scan_plain
scan_noise csi out [] h = refl
scan_noise csi out (a ∷ r) h = ground (arith, scan_noise csi out r h.1)

scan_kept :
    (csi : CsiInfo) (out bytes : Bytes)
    → NoEsc bytes
    → scan (green csi out) bytes ≡ ok (green csi (out ++ bytes))
unfolding scan scan_byte scan_in scan_plain
scan_kept csi out [] h = rw append-nil
scan_kept csi out (a ∷ r) h =
    ground (arith, scan_kept csi (out ++ a ∷ []) r h.1, append_assoc out (a ∷ []) r)

abbrev csi_of_prefix : CsiInfo
csi_of_prefix = record { argc = 2; argv = 32 ∷ 42 ∷ replicate 14 0; cur = 1 }

abbrev csi_of_postfix : CsiInfo
csi_of_postfix = record { argc = 1; argv = replicate 16 0; cur = 0 }

scan_prefix :
    (csi : CsiInfo) (out : Bytes) → scan (quiet csi out) green_prefix ≡ ok (green csi_of_prefix out)
unfolding scan csi_digit csi_colors bg_param fg_param
scan_prefix csi out = refl

scan_postfix :
    (csi : CsiInfo) (out : Bytes)
    → scan (green csi out) green_postfix ≡ ok (quiet csi_of_postfix out)
unfolding scan csi_digit csi_colors bg_param fg_param
scan_postfix csi out = refl

pub scan-green_encode :
    (csi : CsiInfo) (out bytes : Bytes)
    → NoEsc bytes
    → scan (quiet csi out) (green_encode bytes) ≡ ok (quiet csi_of_postfix (out ++ bytes))
unfolding green_encode
scan-green_encode csi out bytes h =
    rw
      (
        scan-append (quiet csi out) green_prefix (bytes ++ green_postfix),
        scan_prefix csi out,
        scan-append (green csi_of_prefix out) bytes green_postfix,
        scan_kept csi_of_prefix out bytes h,
      )
      (scan_postfix csi_of_prefix (out ++ bytes))

-- What a terminal shows: other text, and pieces that `green_encode` printed.
pub data Shown : Type 0 where
  noise : Bytes → Shown
  coded : Bytes → Shown

abbrev pub shown_bytes : Shown → Bytes
shown_bytes (noise b) = b
shown_bytes (coded b) = green_encode b

abbrev pub coded_bytes : Shown → Bytes
coded_bytes (noise b) = []
coded_bytes (coded b) = b

abbrev pub ShownNoEsc : Shown → Type 0
ShownNoEsc (noise b) = NoEsc b
ShownNoEsc (coded b) = NoEsc b

pub scan_shown :
    (csi : CsiInfo) (out : Bytes) (xs : List Shown)
    → All ShownNoEsc xs
    → (csi' : CsiInfo) × (scan (quiet csi out) (flatten (map shown_bytes xs))
        ≡ ok (quiet csi' (out ++ flatten (map coded_bytes xs))))
unfolding scan
scan_shown csi out [] h = (csi, rw append-nil)
scan_shown csi out (noise b ∷ xs) h =
    let (csi', e) = scan_shown csi out xs h.1 in
    (
      csi',
      rw (scan-append (quiet csi out) b (flatten (map shown_bytes xs)), scan_noise csi out b h.0) e,
    )
scan_shown csi out (coded b ∷ xs) h =
    let (csi', e) = scan_shown csi_of_postfix (out ++ b) xs h.1 in
    (
      csi',
      rw
          (
            scan-append (quiet csi out) (green_encode b) (flatten (map shown_bytes xs)),
            scan-green_encode csi out b h.0,
            ← append_assoc,
          )
          e,
    )

scanned_output :
    (m : Result FsmContext) {t : Scanner}
    → map_ok scanner_of m ≡ ok t
    → (c : FsmContext) × (m ≡ ok c) × (c.output ≡ t.out)
scanned_output (ok c) e = (c, refl, ap out_of e)
  where
    out_of : Result Scanner → Bytes
    out_of (ok s) = s.out
    out_of (fault x) = []
scanned_output (fault x) e = absurd (ground arith)

-- Let the terminal show pieces printed by `green_encode` and other text between them, neither with
-- an escape byte of its own. However this is cut into reads, the machine that has just started
-- always returns from them, and its output is exactly the text of the green pieces.
pub feed_all_shown :
    (xs : List Bytes) (items : List Shown)
    → All ShownNoEsc items
    → flatten xs ≡ flatten (map shown_bytes items)
    → (c : FsmContext) × (feed_all fsm_init xs ≡ ok c)
      × (c.output ≡ flatten (map coded_bytes items))
unfolding fsm_init
feed_all_shown xs items h e =
    let (same, idle) = feed_all-scan xs fsm_init fsm_init-IsIdle in
    let (csi, scanned) = scan_shown csi_zero [] items h in
    let whole = same ∙ ap (scan (quiet csi_zero [])) e ∙ scanned in
    scanned_output (feed_all fsm_init xs) whole
