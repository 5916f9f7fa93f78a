-- ===== src/Socks/Requests.antt =====
-- The reads of src/socksproxy.c on a connection that does not fail.
use termtunnel.Base.{
  ℕ, List, Result, Bytes, Bool, false, ◌≡◌, All, ◌||◌, ok, flatten, ◌∷◌, true, [], length, ◌++◌,
  ◌==◌, refl,
}
use termtunnel.Socks.{readn, read_byte, read_sized, read_methods, vnet_readn}
use termtunnel.Vnet.Reads.{readn_loop_gets, NotEmpty, arrivals}
use termtunnel.Vnet.{Socket, vnet_readn}

-- A connection that brings these bytes and has not failed.
abbrev pub clean : List Bytes → Socket
clean xs = record { stale = false; reads = arrivals xs }

-- A read has returned `a`, and the bytes `c` are to come.
pub record Got {ℓ} {A : Type ℓ} (m : Result (A × Socket)) (a : A) (c : Bytes) : Type ℓ where
  pub more : List Bytes
  pub ran : m ≡ ok (a, clean more)
  pub left : flatten more ≡ c
  pub good : All NotEmpty more

pub readn-Got :
    (xs : List Bytes) (n : ℕ) (a c : Bytes)
    → All NotEmpty xs
    → flatten xs ≡ a ++ c
    → length a ≡ n
    → Got (readn n (clean xs)) a c
unfolding readn vnet_readn
readn-Got xs n a c h e l =
    let (more, ran, left, good) = readn_loop_gets xs n a c h e l in
    record { more = more; ran = rw ran refl; left = left; good = good }

pub read_byte-Got :
    (xs : List Bytes) (a : ℕ) (c : Bytes)
    → All NotEmpty xs
    → flatten xs ≡ a ∷ c
    → Got (read_byte (clean xs)) a c
unfolding read_byte
read_byte-Got xs a c h e =
    let r = readn-Got xs 1 (a ∷ []) c h e refl in
    record { more = r.more; ran = rw r.ran refl; left = r.left; good = r.good }

pub read_sized-Got :
    (xs : List Bytes) (b c : Bytes)
    → All NotEmpty xs
    → flatten xs ≡ length b ∷ (b ++ c)
    → Got (read_sized (clean xs)) b c
unfolding read_sized
read_sized-Got xs b c h e =
    let r = read_byte-Got xs (length b) (b ++ c) h e in
    let t = readn-Got r.more (length b) b c r.good r.left refl in
    record { more = t.more; ran = rw (r.ran, t.ran) refl; left = t.left; good = t.good }

-- Whether a method is offered.
abbrev pub offers : ℕ → Bytes → Bool
offers wanted [] = false
offers wanted (m ∷ ms) = m == wanted || offers wanted ms

or_assoc : (a b c : Bool) → ((a || b) || c) ≡ (a || (b || c))
or_assoc true b c = refl
or_assoc false b c = refl

pub read_methods-Got :
    (xs : List Bytes) (wanted : ℕ) (supported : Bool) (ms c : Bytes)
    → All NotEmpty xs
    → flatten xs ≡ ms ++ c
    → Got (read_methods wanted (length ms) supported (clean xs)) (supported || offers wanted ms) c
unfolding read_methods
read_methods-Got xs wanted true [] c h e = record { more = xs; ran = refl; left = e; good = h }
read_methods-Got xs wanted false [] c h e = record { more = xs; ran = refl; left = e; good = h }
read_methods-Got xs wanted supported (m ∷ ms) c h e =
    let r = read_byte-Got xs m (ms ++ c) h e in
    let t = read_methods-Got r.more wanted (supported || m == wanted) ms c r.good r.left in
    record { more = t.more; ran = rw (r.ran, t.ran, or_assoc) refl; left = t.left; good = t.good }
