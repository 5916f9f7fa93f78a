-- ===== src/Intent/Forward.antt =====
-- The server reads the struct of src/intent.h that `new_port_forward_intent` of src/repl.c filled
-- in.
use termtunnel.Base.{
  ℕ, Bytes, All, take, length, ◌≤◌, ◌++◌, ◌≢◌, drop, ◌≡◌, ◌<◌, ◌%◌, some, [], ◌^◌, arith, sym, ok,
  drop-drop, length-take, ◌∙◌, length-drop, ap, append-nil, length-append, refl,
}
use termtunnel.Intent.{new_port_forward_intent, read_port_forward, fill_field, host_max}
use termtunnel.Intent.RoundTrip.{front, fill_field-fits, leb_of_le}
use termtunnel.Words.{le_bytes, length-le_bytes, from_le-le_bytes}

-- A C string that a field of 64 bytes holds.
pub record IsHost (s : Bytes) : Type 0 where
  pub no_nul : All (λ a. a ≢ 0) s
  pub fits : length s < host_max

-- The struct, in the order of its fields.
abbrev layout : ℕ → Bytes → Bytes → ℕ → ℕ → Bytes
layout kind a b src_port dst_port =
    le_bytes 4 kind
    ++ (a ++ (b ++ (le_bytes 2 (src_port % 65536) ++ le_bytes 2 (dst_port % 65536))))

new_port_forward_intent-fields :
    (memory : Bytes) (kind : ℕ) (src : Bytes) (src_port : ℕ) (dst : Bytes) (dst_port : ℕ)
    (a b : Bytes)
    → fill_field (take host_max (drop 4 memory)) src ≡ some a
    → fill_field (take host_max (drop 68 memory)) dst ≡ some b
    → new_port_forward_intent memory kind src src_port dst dst_port
      ≡ some (layout kind a b src_port dst_port)
unfolding new_port_forward_intent
new_port_forward_intent-fields memory kind src src_port dst dst_port a b e f = ground (arith, e, f)

-- The parts of a text that is five pieces one after the other.
record Parts (k a b p q : Bytes) : Type 0 where
  kind_part : take 4 (k ++ (a ++ (b ++ (p ++ q)))) ≡ k
  src_part : take 64 (drop 4 (k ++ (a ++ (b ++ (p ++ q))))) ≡ a
  dst_part : take 64 (drop 68 (k ++ (a ++ (b ++ (p ++ q))))) ≡ b
  src_port_part : take 2 (drop 132 (k ++ (a ++ (b ++ (p ++ q))))) ≡ p
  dst_port_part : take 2 (drop 134 (k ++ (a ++ (b ++ (p ++ q))))) ≡ q
  whole : length (k ++ (a ++ (b ++ (p ++ q)))) ≡ 136

parts :
    (k a b p q : Bytes)
    → length k ≡ 4
    → length a ≡ 64
    → length b ≡ 64
    → length p ≡ 2
    → length q ≡ 2
    → Parts k a b p q
parts k a b p q lk la lb lp lq =
    let all = k ++ (a ++ (b ++ (p ++ q))) in
    let (t1, d1) = front 4 k (a ++ (b ++ (p ++ q))) lk in
    let (t2, d2) = front 64 a (b ++ (p ++ q)) la in
    let (t3, d3) = front 64 b (p ++ q) lb in
    let (t4, d4) = front 2 p q lp in
    let (t5, d5) = front 2 q [] lq in
    let e68 : drop 68 all ≡ b ++ (p ++ q) = sym (drop-drop 64 4 all) ∙ ap (drop 64) d1 ∙ d2 in
    let e132 : drop 132 all ≡ p ++ q = sym (drop-drop 64 68 all) ∙ ap (drop 64) e68 ∙ d3 in
    let e134 : drop 134 all ≡ q = sym (drop-drop 2 132 all) ∙ ap (drop 2) e132 ∙ d4 in
    record {
      kind_part = t1;
      src_part = ap (take 64) d1 ∙ t2;
      dst_part = ap (take 64) e68 ∙ t3;
      src_port_part = ap (take 2) e132 ∙ t4;
      dst_port_part = ap (take 2) e134 ∙ ap (take 2) (sym (append-nil q)) ∙ t5;
      whole = omega (
        arith,
        length-append k (a ++ (b ++ (p ++ q))),
        length-append a (b ++ (p ++ q)),
        length-append b (p ++ q),
        length-append p q,
      );
    }

-- Hosts that are C strings shorter than their field, and a kind of 32 bits, are read as they were
-- written, and of each port the low 16 bits, whatever stood in the memory of the struct.
pub read_port_forward-new_port_forward_intent :
    (memory : Bytes) (kind : ℕ) (src : Bytes) (src_port : ℕ) (dst : Bytes) (dst_port : ℕ)
    → 136 ≤ length memory
    → kind < 256 ^ 4
    → IsHost src
    → IsHost dst
    → (buf : Bytes) × (new_port_forward_intent memory kind src src_port dst dst_port ≡ some buf)
      × (read_port_forward buf
          ≡ ok (record {
            forward_type = kind;
            src_host = src;
            dst_host = dst;
            src_port = src_port % 65536;
            dst_port = dst_port % 65536;
          }))
unfolding read_port_forward
read_port_forward-new_port_forward_intent memory kind src src_port dst dst_port m t s d =
    let first = length-take host_max (drop 4 memory) (omega (arith, length-drop 4 memory)) in
    let second = length-take host_max (drop 68 memory) (omega (arith, length-drop 68 memory)) in
    let (a, ea, la, ra) =
      fill_field-fits (take host_max (drop 4 memory)) src s.no_nul (omega (arith, s.fits)) in
    let (b, eb, lb, rb) =
      fill_field-fits (take host_max (drop 68 memory)) dst d.no_nul (omega (arith, d.fits)) in
    let p = le_bytes 2 (src_port % 65536) in
    let q = le_bytes 2 (dst_port % 65536) in
    let x =
      parts (le_bytes 4 kind) a b p q (length-le_bytes 4 kind) (la ∙ first) (lb ∙ second)
        (length-le_bytes 2 _) (length-le_bytes 2 _) in
    (
      layout kind a b src_port dst_port,
      new_port_forward_intent-fields memory kind src src_port dst dst_port a b ea eb,
      rw
          (
            leb_of_le {m = 136} {n = length (layout kind a b src_port dst_port)}
                (omega (arith, x.whole)),
            x.kind_part,
            x.src_part,
            x.dst_part,
            x.src_port_part,
            x.dst_port_part,
            ra,
            rb,
            from_le-le_bytes 4 kind t,
            from_le-le_bytes 2 (src_port % 65536) (omega arith),
            from_le-le_bytes 2 (dst_port % 65536) (omega arith),
          )
          refl,
    )
