-- ===== src/Repl/Recv.antt =====
-- `recv_data` of src/repl.c reads back the packet that the server wrote.
use termtunnel.Base.{
  ℕ, List, ◌≢◌, Bytes, [], suc, All, ◌<◌, ◌++◌, length, ◌≡◌, ◌^◌, ok, ◌≤◌, ◌∷◌, drop, arith, some,
  length-drop, Bool-cases, if◌then◌else◌, ap, ltb, ◌==◌, inl, ◌∙◌, append_assoc, ltb→lt, inr, ◌||◌,
  ltb→le, false, sym, refl, ◌-◌, take-append-drop, zero,
}
use termtunnel.Repl.{
  ReadEvent, got, interrupted, expect_read, recv_data, Received, max_message_size, is_negative64,
}
use termtunnel.Packet.{send_binary, Packet}
use termtunnel.Words.{le_bytes, length-le_bytes, from_le-le_bytes, is_negative64}
use termtunnel.Packet.Stream.{append_front}

-- The bytes of the reads to come.
abbrev pub stream : List ReadEvent → Bytes
stream [] = []
stream (got b ∷ evs) = b ++ stream evs
stream (interrupted ∷ evs) = stream evs

-- A read returns at least one byte.
abbrev pub IsRead : ReadEvent → Type 0
IsRead (got b) = b ≢ []
IsRead interrupted = Unit

left_over : (n b : ℕ) (bs : Bytes) → suc n < length (b ∷ bs) → drop (suc n) (b ∷ bs) ≢ []
left_over n b bs h e = absurd (omega (arith, length-drop (suc n) (b ∷ bs), ap length e))

not_empty : (b : ℕ) (bs : Bytes) → (length (b ∷ bs) == 0) ≡ false
not_empty b bs = ground arith

-- `expect_read` gets the next bytes of the stream, however they are cut, and passes over interrupts.
expect_read_gets :
    (evs : List ReadEvent) (n : ℕ) (xs ys : Bytes)
    → All IsRead evs
    → stream evs ≡ xs ++ ys
    → length xs ≡ n
    → (more : List ReadEvent) × (expect_read n evs ≡ ok (xs, more))
      × (stream more ≡ ys)
      × All IsRead more
unfolding expect_read
expect_read_gets evs zero [] ys h e k = (evs, refl, e, h)
expect_read_gets evs zero (x ∷ xs) ys h e k = absurd (omega arith)
expect_read_gets [] (suc n) [] ys h e k = absurd (omega arith)
expect_read_gets [] (suc n) (x ∷ xs) ys h e k = absurd (ground arith)
expect_read_gets (interrupted ∷ evs) (suc n) xs ys h e k =
    expect_read_gets evs (suc n) xs ys h.1 e k
expect_read_gets (got [] ∷ evs) (suc n) xs ys h e k = absurd (h.0 refl)
expect_read_gets (got (b ∷ bs) ∷ evs) (suc n) xs ys h e k =
    elim (Bool-cases (ltb (suc n) (length (b ∷ bs)))) [
      | inl more ↦
          let (front, back) =
            append_front (suc n) (b ∷ bs) (stream evs) xs ys
              (omega (arith, ltb→lt (suc n) (length (b ∷ bs)) more)) k e in
          (
            got (drop (suc n) (b ∷ bs)) ∷ evs,
            rw (not_empty b bs, more, front) refl,
            back,
            (left_over n b bs (ltb→lt (suc n) (length (b ∷ bs)) more), h.1),
          )
      | inr less ↦
          let l = ltb→le (suc n) (length (b ∷ bs)) less in
          let (front, back) =
            append_front (length (b ∷ bs)) xs ys (b ∷ bs) (stream evs) (omega arith) refl (sym e) in
          let (more, ran, left, good) =
            expect_read_gets evs (suc n - length (b ∷ bs)) (drop (length (b ∷ bs)) xs) ys h.1
              (sym back) (length-drop (length (b ∷ bs)) xs ∙ ap (λ m. m - length (b ∷ bs)) k) in
          let whole : (b ∷ bs) ++ drop (length (b ∷ bs)) xs ≡ xs =
            ap (λ l. l ++ drop (length (b ∷ bs)) xs) (sym front)
            ∙ take-append-drop (length (b ∷ bs)) xs in
          (more, rw (not_empty b bs, less, ran, whole) refl, left, good)
    ]

size_ok : (n : ℕ) → n ≤ max_message_size → (is_negative64 n || ltb max_message_size n) ≡ false
size_ok n h = ground (arith, h)

-- What `recv_data` sets for a packet: without a payload, the type is left in the buffer.
abbrev pub received : Packet → Received
received p = record {
  type = p.type;
  buf = some (if length p.payload == 0 then le_bytes 8 p.type else p.payload);
  size = length p.payload;
}

-- The packet is set, and the reads still to come are again at least one byte.
pub recv_data_gets :
    (p : Packet) (rest : Bytes) (evs : List ReadEvent)
    → p.type < 256 ^ 8
    → length p.payload ≤ max_message_size
    → All IsRead evs
    → stream evs ≡ send_binary p.type p.payload ++ rest
    → (more : List ReadEvent) × (recv_data evs ≡ ok (received p, more))
      × (stream more ≡ rest)
      × All IsRead more
unfolding recv_data send_binary
recv_data_gets p rest evs t l h e =
    let size = le_bytes 8 (length p.payload) in
    let type = le_bytes 8 p.type in
    let line : stream evs ≡ size ++ (type ++ (p.payload ++ rest)) =
      e
      ∙ append_assoc size (type ++ p.payload) rest
      ∙ ap (λ r. size ++ r) (append_assoc type p.payload rest) in
    let (ev1, ran1, left1, good1) =
      expect_read_gets evs 8 size (type ++ (p.payload ++ rest)) h line (length-le_bytes 8 _) in
    let (ev2, ran2, left2, good2) =
      expect_read_gets ev1 8 type (p.payload ++ rest) good1 left1 (length-le_bytes 8 _) in
    let (ev3, ran3, left3, good3) =
      expect_read_gets ev2 (length p.payload) p.payload rest good2 left2 refl in
    let n = from_le-le_bytes 8 (length p.payload) (omega (arith, l)) in
    let k = from_le-le_bytes 8 p.type t in
    let small : (is_negative64 (length p.payload) || ltb max_message_size (length p.payload))
        ≡ false =
      size_ok (length p.payload) l in
    (ev3, rw (ran1, n, small, ran2, ran3, k) refl, left3, good3)

-- However the pipe is read, at least one byte at a time and with interrupts between the reads,
-- `recv_data` always returns from a packet whose payload has at most 64 MiB and whose type has 64
-- bits: it sets the type, the size and the payload, leaves the type in the buffer if there is no
-- payload, and leaves what follows the packet.
pub recv_data-send_binary :
    (p : Packet) (rest : Bytes) (evs : List ReadEvent)
    → p.type < 256 ^ 8
    → length p.payload ≤ max_message_size
    → All IsRead evs
    → stream evs ≡ send_binary p.type p.payload ++ rest
    → (r : Received) × (more : List ReadEvent) × (recv_data evs ≡ ok (r, more))
      × (r.type ≡ p.type)
      × (r.size ≡ length p.payload)
      × (r.buf ≡ some (if length p.payload == 0 then le_bytes 8 p.type else p.payload))
      × (stream more ≡ rest)
recv_data-send_binary p rest evs t l h e =
    let (more, ran, left, good) = recv_data_gets p rest evs t l h e in
    (received p, more, ran, refl, refl, refl, left)
