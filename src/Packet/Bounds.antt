-- ===== src/Packet/Bounds.antt =====
-- `parser` of src/pipe.c on any bytes at all: it ends, keeps its buffer within bounds, and hands on
-- no packet above its limit.
use termtunnel.Base.{
  ℕ, length, List, arith, ◌≡◌, ◌≤◌, Result, ◌-◌, true, ◌<◌, ok, ◌+◌, All, if◌then◌else◌, ◌^◌,
}
use termtunnel.Packet.{
  Packet, Parser, parser_loop, max_payload, Reply, from_le, parser, parser_init,
}
use termtunnel.Words.{from_le}
use termtunnel.Packet.Stream.{waits_for}

-- The state between two reads.
pub record IsValid (p : Parser) : Type 0 where
  pub size_low : p.expect_content ≡ true → 8 ≤ p.expect_content_len
  pub size_high : p.expect_content ≡ true → p.expect_content_len ≤ max_payload + 8
  pub short : length p.queue < waits_for p.expect_content p.expect_content_len
  pub within : length p.queue ≤ (if p.has_queue then p.queue_size else 0)
  pub in_range : p.queue_size < 2 ^ 31

abbrev pub IsSmall : Packet → Type 0
IsSmall x = length x.payload ≤ max_payload

-- What the loop keeps, and what it leaves.
record IsLooping (p : Parser) : Type 0 where
  low : p.expect_content ≡ true → 8 ≤ p.expect_content_len
  high : p.expect_content ≡ true → p.expect_content_len ≤ max_payload + 8
  within : length p.queue ≤ (if p.has_queue then p.queue_size else 0)
  in_range : p.queue_size < 2 ^ 31

abbrev Ends : List Packet → Result Reply → Type 0
Ends out m = (r : Reply) × (m ≡ ok r) × IsValid r.parser × (All IsSmall out → All IsSmall r.packets)

abbrev Ending : ℕ → Type 0
Ending fuel =
    (p : Parser) (ptr : ℕ) (out : List Packet)
    → length p.queue - ptr < fuel
    → IsLooping p
    → Ends out (parser_loop fuel p ptr out)

pub parser_init-IsValid : IsValid parser_init
unfolding parser_init
parser_init-IsValid = record {
  size_low = λ e. cc;
  size_high = λ e. cc;
  short = omega arith;
  within = omega arith;
  in_range = omega arith;
}
