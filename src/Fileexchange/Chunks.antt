-- ===== src/Fileexchange/Chunks.antt =====
-- Reads cut to the size of a buffer, and the loops of src/fileexchange.c over them.
use termtunnel.Base.{
  ℕ, Bytes, length, List, ◌≤◌, flatten, All, ◌++◌, suc, ◌≡◌, ◌∷◌, arith, ap, [], ok, drop, ◌∙◌, ap₂,
  map, refl, length-drop, sym, All-append, take, append_assoc, take-append-drop, zero,
}
use termtunnel.Fileexchange.{
  System, FileAction, vnet_send, pieces_of, chunked, copy_loop, send_loop,
}
use termtunnel.Vnet.{SocketRead, arrived, closed, failed}
use termtunnel.Vnet.Reads.{arrivals, NotEmpty}

-- A read cut to the size of a buffer brings the same bytes.
pub pieces_of_whole :
    (fuel size : ℕ) (b : Bytes)
    → length b ≤ fuel
    → (ys : List Bytes) × (pieces_of fuel (suc size) b ≡ arrivals ys)
      × (flatten ys ≡ b)
      × All NotEmpty ys
unfolding pieces_of
pieces_of_whole zero size [] l = ([], refl, refl, tt)
pieces_of_whole zero size (a ∷ b) l = absurd (omega arith)
pieces_of_whole (suc fuel) size [] l = ([], refl, refl, tt)
pieces_of_whole (suc fuel) size (a ∷ b) l =
    let (ys, cut, whole, good) =
      pieces_of_whole fuel size (drop size b) (omega (arith, length-drop size b)) in
    (
      take (suc size) (a ∷ b) ∷ ys,
      rw cut refl,
      ap (λ t. (a ∷ take size b) ++ t) whole ∙ take-append-drop (suc size) (a ∷ b),
      ((λ z. absurd (omega (arith, ap length z))), good),
    )

arrivals-append :
    (xs ys : List Bytes) (after : List SocketRead)
    → arrivals xs ++ (arrivals ys ++ after) ≡ arrivals (xs ++ ys) ++ after
arrivals-append [] ys after = refl
arrivals-append (x ∷ xs) ys after = ap (◌∷◌ (arrived x)) (arrivals-append xs ys after)

flatten-append : (xs ys : List Bytes) → flatten (xs ++ ys) ≡ flatten xs ++ flatten ys
flatten-append [] ys = refl
flatten-append (x ∷ xs) ys =
    ap (λ t. x ++ t) (flatten-append xs ys) ∙ sym (append_assoc x (flatten xs) (flatten ys))

pub chunked_whole :
    (xs : List Bytes)
    → All NotEmpty xs
    → (ys : List Bytes) × (chunked (arrivals xs ++ closed ∷ []) ≡ arrivals ys ++ closed ∷ [])
      × (flatten ys ≡ flatten xs)
      × All NotEmpty ys
unfolding chunked
chunked_whole [] h = ([], refl, refl, tt)
chunked_whole ([] ∷ xs) h = absurd (h.0 refl)
chunked_whole ((a ∷ b) ∷ xs) h =
    let (front, cut, whole, good) = pieces_of_whole (length (a ∷ b)) 4095 (a ∷ b) (omega arith) in
    let (ys, ran, same, fine) = chunked_whole xs h.1 in
    (
      front ++ ys,
      ap₂ (λ p q. p ++ q) cut ran ∙ arrivals-append front ys (closed ∷ []),
      flatten-append front ys ∙ ap₂ (λ s t. s ++ t) whole same,
      All-append NotEmpty front ys good fine,
    )

pub copy_loop_passes :
    (pass : Bytes → FileAction) (ys : List Bytes)
    → All NotEmpty ys
    → copy_loop pass (arrivals ys ++ closed ∷ []) ≡ ok (map pass ys)
unfolding copy_loop
copy_loop_passes pass [] h = refl
copy_loop_passes pass ([] ∷ ys) h = absurd (h.0 refl)
copy_loop_passes pass ((a ∷ b) ∷ ys) h = rw (copy_loop_passes pass ys h.1) refl

pub send_loop_passes :
    (sys : System) (ys : List Bytes)
    → All NotEmpty ys
    → send_loop sys (arrivals ys ++ closed ∷ []) ≡ ok (map (λ b. vnet_send (sys.sends b)) ys)
unfolding send_loop
send_loop_passes sys [] h = refl
send_loop_passes sys ([] ∷ ys) h = absurd (h.0 refl)
send_loop_passes sys ((a ∷ b) ∷ ys) h = rw (send_loop_passes sys ys h.1) refl

-- Reads of a socket up to the first that brings nothing are passed on.
copy_loop_front :
    (pass : Bytes → FileAction) (ys : List Bytes) (more : List SocketRead)
    → All NotEmpty ys
    → ((zs : List Bytes) × (copy_loop pass more ≡ ok (map pass zs)))
    → (zs : List Bytes) × (copy_loop pass (arrivals ys ++ more) ≡ ok (map pass zs))
unfolding copy_loop
copy_loop_front pass [] more h r = r
copy_loop_front pass ([] ∷ ys) more h r = absurd (h.0 refl)
copy_loop_front pass ((a ∷ b) ∷ ys) more h r =
    let (zs, ran) = copy_loop_front pass ys more h.1 r in ((a ∷ b) ∷ zs, rw ran refl)

pub copy_loop_ends :
    (pass : Bytes → FileAction) (rs : List SocketRead)
    → (zs : List Bytes) × (copy_loop pass (chunked (rs ++ closed ∷ [])) ≡ ok (map pass zs))
unfolding chunked copy_loop
copy_loop_ends pass [] = ([], refl)
copy_loop_ends pass (closed ∷ rs) = ([], refl)
copy_loop_ends pass (failed again ∷ rs) = ([], refl)
copy_loop_ends pass (arrived [] ∷ rs) = ([], refl)
copy_loop_ends pass (arrived (a ∷ b) ∷ rs) =
    let (front, cut, whole, good) = pieces_of_whole (length (a ∷ b)) 4095 (a ∷ b) (omega arith) in
    let (zs, ran) = copy_loop_front pass front _ good (copy_loop_ends pass rs) in
    (zs, ap (λ f. copy_loop pass (f ++ chunked (rs ++ closed ∷ []))) cut ∙ ran)
