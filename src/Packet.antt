-- ===== src/Packet.antt =====
-- The packets between the client and the server of termtunnel, over two pipes: the constants of
-- src/intent.h, what `send_binary` of src/repl.c and `comm_write_packet_to_cli` of src/pipe.c
-- write, and `parser` of src/pipe.c, which reads it. `malloc` and `realloc` succeed.
pub mod Stream
pub mod Loop
pub mod Reads
pub mod Bounds
pub mod Writes
use termtunnel.Base.{
  ℕ, Bytes, Bool, List, false, [], if◌then◌else◌, Result, length, ltb, ◌||◌, ok, fault, ◌++◌, ◌-◌,
  drop, out_of_fuel, ◌+◌, take, suc, ◌*◌, ◌∷◌, true, ◌==◌, aborted, zero, ◌>>◌, guard, leb, ◌>>=◌,
  out_of_bounds,
}
use termtunnel.Words.{le_bytes, is_negative64, from_le}

pub record Packet : Type 0 where
  pub type : ℕ
  pub payload : Bytes

-- The payload's size, the type, the payload.
unfoldable pub send_binary : ℕ → Bytes → Bytes
send_binary type payload = le_bytes 8 (length payload) ++ (le_bytes 8 type ++ payload)

-- The static buffer of `parser`: `queue` holds its valid bytes, `queue_size` is its capacity, and
-- `has_queue` says that it is not NULL.
pub record Parser : Type 0 where
  pub expect_content : Bool
  pub expect_content_len : ℕ
  pub has_queue : Bool
  pub queue_size : ℕ
  pub queue : Bytes

-- The packets handed to `server_handle_client_packet`, the state after, and the return value -1.
pub record Reply : Type 0 where
  pub packets : List Packet
  pub parser : Parser
  pub failed : Bool

unfoldable pub parser_init : Parser
parser_init = record {
  expect_content = false;
  expect_content_len = 0;
  has_queue = false;
  queue_size = 0;
  queue = [];
}

-- 64 MiB
abbrev pub max_payload : ℕ
max_payload = 67108864

abbrev pub header_size : ℕ
header_size = 8

-- `find_a_packet`: a packet shorter than its type is logged and dropped.
unfoldable pub find_a_packet : Bytes → List Packet
find_a_packet buf =
    if ltb (length buf) 8
    then []
    else record { type = from_le (take 8 buf); payload = drop 8 buf } ∷ []

-- `queue_valid_size = 0` and a clean state, at an error.
abbrev pub reset : Parser → Parser
reset p = record p { expect_content = false; expect_content_len = 0; queue = [] }

-- The two size tests of `parser`; the second is `payload_size > INT_MAX - 8`.
unfoldable pub is_bad_size : ℕ → Bool
is_bad_size n = is_negative64 n || ltb max_payload n || ltb (2147483647 - 8) n

-- Behind the loop: the rest moves to the front.
abbrev pub finish : Parser → ℕ → List Packet → Result Reply
finish p ptr out =
    ok (record { packets = out; parser = record p { queue = drop ptr p.queue }; failed = false })

-- The `while` of `parser`, on fuel: the state, `ptr` and the packets found so far.
unfoldable pub parser_loop : ℕ → Parser → ℕ → List Packet → Result Reply
parser_loop zero p ptr out = fault out_of_fuel
parser_loop (suc fuel) p ptr out =
    let left = length p.queue - ptr in
    let content =
      parser_loop fuel (record p { expect_content = false }) (ptr + p.expect_content_len)
        (out ++ find_a_packet (take p.expect_content_len (drop ptr p.queue))) in
    let size = from_le (take 8 (drop ptr p.queue)) in
    let header =
      parser_loop fuel (record p { expect_content = true; expect_content_len = size + 8 }) (ptr + 8)
        out in
    if ltb ptr (length p.queue)
    then (if p.expect_content
        then (if p.expect_content_len == 0
            then fault aborted
            else if ltb left p.expect_content_len
            then finish p ptr out
            else content)
        else if ltb left header_size
        then finish p ptr out
        else if is_bad_size size
        then ok (record { packets = out; parser = reset p; failed = true })
        else header)
    else finish p ptr out

-- The buffer with room for the bytes read, and the bytes in it. The sizes are ints in the source
-- and natural numbers here: the model stands for the source as long as `2 * need` is below 2^31.
unfoldable pub parser_append : Parser → Bytes → Result Parser
parser_append p buf = do
  let size0 = if p.has_queue then p.queue_size else 100
  let need = length p.queue + length buf
  let size = if ltb size0 need then 2 * need else size0
  guard (leb need size) out_of_bounds
  ok (record p { has_queue = true; queue_size = size; queue = p.queue ++ buf })

unfoldable pub parser : Parser → Bytes → Result Reply
unfolding parser_append
parser p buf = do
  guard (ltb 0 (length buf)) aborted
  c ← parser_append p buf
  parser_loop (length c.queue + 1) c 0 []

-- `common_read_data_from_cli` on a read that did not fail; the return value of `parser` is not used.
unfoldable pub common_read_data_from_cli : Parser → Bytes → Result Reply
common_read_data_from_cli p [] = ok (record { packets = []; parser = p; failed = false })
common_read_data_from_cli p (a ∷ r) = parser p (a ∷ r)

-- Read after read.
unfoldable pub read_all : Parser → List Bytes → Result Reply
read_all p [] = ok (record { packets = []; parser = p; failed = false })
read_all p (x ∷ xs) = do
  r ← common_read_data_from_cli p x
  s ← read_all r.parser xs
  ok (record { packets = r.packets ++ s.packets; parser = s.parser; failed = r.failed || s.failed })
