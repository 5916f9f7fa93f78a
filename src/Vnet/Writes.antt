-- ===== src/Vnet/Writes.antt =====
-- `lwip_writen` of src/vnet.c and `writen` of src/utils.c, and a list of pieces for what calls take.
use termtunnel.Utils.{writen}
use termtunnel.Base.{
  ℕ, List, Bytes, Option, length, ◌∷◌, All, ◌++◌, some, ◌≤◌, ◌≢◌, [], ◌≡◌, none, ok, arith, ap,
  take-append_length, length-append, drop-append_length, refl, Bool-cases, ◌==◌, inl, ==_iff,
  append-nil, inr, drop, length-drop, drop_all, take,
}
use termtunnel.Vnet.{SocketWrite, wrote, write_failed, writen_loop, lwip_writen}

-- What the calls of `lwip_write` take, piece by piece; `none` is a call that fails.
abbrev pub counts : List (Option Bytes) → List SocketWrite
counts [] = []
counts (none ∷ ps) = write_failed ∷ counts ps
counts (some b ∷ ps) = wrote (length b) ∷ counts ps

abbrev pub pieces : List (Option Bytes) → Bytes
pieces [] = []
pieces (none ∷ ps) = pieces ps
pieces (some b ∷ ps) = b ++ pieces ps

-- The rest of the pieces is written, when one of them has been.
writen_step :
    (b rest : Bytes) (n : ℕ) (ws : List SocketWrite)
    → length (b ++ rest) ≤ n
    → b ≢ []
    → ((left : List SocketWrite) × (writen_loop rest n ws ≡ ok (rest, left)))
    → (left : List SocketWrite) × (writen_loop (b ++ rest) n (wrote (length b) ∷ ws)
        ≡ ok (b ++ rest, left))
unfolding writen_loop
writen_step [] rest n ws l e ih = absurd (e refl)
writen_step (a ∷ b) rest n ws l e ih =
    let t = take-append_length b rest in
    let d = drop-append_length b rest in
    elim (Bool-cases (length (a ∷ b) == n)) [
      | inl whole ↦
          let none_left : length rest ≡ 0 =
            omega (arith, (==_iff (length (a ∷ b)) n).0 whole, length-append b rest) in
          (ws, rw (whole, t, nothing rest none_left, append-nil b) refl)
      | inr part ↦ (ih.0, rw (part, d, ih.1, t) refl)
    ]
  where
    nothing : (l : Bytes) → length l ≡ 0 → l ≡ []
    nothing [] h = refl
    nothing (x ∷ l) h = absurd (omega arith)

writen_loop-pieces :
    (ps : List (Option Bytes)) (n : ℕ)
    → All (λ p. p ≢ some []) ps
    → length (pieces ps) ≤ n
    → (left : List SocketWrite) × (writen_loop (pieces ps) n (counts ps) ≡ ok (pieces ps, left))
unfolding writen_loop
writen_loop-pieces [] n h l = ([], refl)
writen_loop-pieces (none ∷ ps) n h l =
    after_failure (pieces ps) (counts ps) n (writen_loop-pieces ps n h.1 l)
  where
    after_failure :
        (buf : Bytes) (ws : List SocketWrite) (n : ℕ)
        → ((left : List SocketWrite) × (writen_loop buf n ws ≡ ok (buf, left)))
        → (left : List SocketWrite) × (writen_loop buf n (write_failed ∷ ws) ≡ ok (buf, left))
    after_failure [] ws n r = (write_failed ∷ ws, refl)
    after_failure (x ∷ buf) ws n r = r
writen_loop-pieces (some b ∷ ps) n h l =
    writen_step b (pieces ps) n (counts ps) l (λ e. h.0 (ap some e))
      (writen_loop-pieces ps n h.1 (omega (arith, length-append b (pieces ps))))

-- However the connection takes the bytes, at least one with each call that does not fail, and
-- however many calls fail in between, `lwip_writen` returns, and has written exactly its bytes.
pub lwip_writen_whole :
    (buf : Bytes) (ps : List (Option Bytes))
    → All (λ p. p ≢ some []) ps
    → pieces ps ≡ buf
    → (left : List SocketWrite) × (lwip_writen buf (counts ps) ≡ ok (buf, left))
unfolding lwip_writen
lwip_writen_whole buf ps h e = rw (← e) (writen_loop-pieces ps (length (pieces ps)) h (omega arith))

writen-writen_loop :
    (buf : Bytes) (n : ℕ) (ws : List SocketWrite)
    → length buf ≤ n
    → writen buf ws ≡ writen_loop buf n ws
unfolding writen writen_loop
writen-writen_loop [] n ws l = refl
writen-writen_loop (a ∷ b) n [] l = refl
writen-writen_loop (a ∷ b) n (write_failed ∷ ws) l = writen-writen_loop (a ∷ b) n ws l
writen-writen_loop (a ∷ b) n (wrote k ∷ ws) l =
    let rest = writen-writen_loop (drop k (a ∷ b)) n ws (omega (arith, length-drop k (a ∷ b))) in
    elim (Bool-cases (k == n)) [
      | inl all_taken ↦
          let e = (==_iff k n).0 all_taken in
          let none_left = drop_all k (a ∷ b) (omega (arith, e)) in
          rw (all_taken, none_left, append-nil (take k (a ∷ b))) refl
      | inr part ↦ rw (part, rest) refl
    ]

-- For any bytes and whatever the calls of the system return, `lwip_writen`, which returns at once
-- from a write that took as many bytes as there were at first, does the same as `writen`, which has
-- no such test: both write the same bytes with the same calls, or do not end.
pub writen-lwip_writen : (buf : Bytes) (ws : List SocketWrite) → writen buf ws ≡ lwip_writen buf ws
unfolding lwip_writen
writen-lwip_writen buf ws = writen-writen_loop buf (length buf) ws (omega arith)
