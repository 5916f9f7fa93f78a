-- ===== src/Agent.antt =====
-- src/agent.c: the agent, which reads frames from its standard input and answers in green text.
pub mod Frames
pub mod Start
pub mod Stdin
use termtunnel.Base.{
  ℕ, Bytes, Option, Bool, ◌^◌, Result, List, [], false, if◌then◌else◌, ◌∷◌, ◌-◌, fault, ok, ◌++◌,
  some, ◌==◌, length, take, out_of_fuel, ltb, bytes_eq, drop, suc, ◌*◌, none, ◌>>◌, codes, ◌||◌,
  ◌/◌, guard, true, ◌&&◌, ◌+◌, leb, zero, out_of_bounds, aborted, int_overflow, ◌>>=◌,
}
use termtunnel.Base64.{Base64}
use termtunnel.Utils.{green_encode}

-- What the agent does, in order: bytes written to its terminal, frames given to the network stack,
-- and the end of the process.
pub data AgentAction : Type 0 where
  agent_write : Bytes → AgentAction
  vnet_data : Bytes → AgentAction
  exit : AgentAction

-- `write_frame_to_server`: a mark behind the frame, in green.
unfoldable pub write_frame_to_server : Bytes → AgentAction
write_frame_to_server frame = agent_write (green_encode (frame ++ b'!' ∷ []))

-- `write_binary_to_server`
unfoldable pub write_binary_to_server : Base64 → Bytes → List AgentAction
write_binary_to_server codec buf = elim (codec.base64_encode buf) [
  | none ↦ []
  | some text ↦ write_frame_to_server (b'B' ∷ text) ∷ []
]

-- `agent_handle_binary` on a decoded frame of at least one byte.
unfoldable pub agent_handle_coded : Option Bytes → List AgentAction
agent_handle_coded none = []
agent_handle_coded (some []) = []
agent_handle_coded (some (a ∷ r)) = vnet_data (a ∷ r) ∷ []

abbrev starts_with_B : Bytes → Bool
starts_with_B [] = false
starts_with_B (a ∷ r) = a == b'B'

-- A frame ends with a NUL in the buffer, so `strcmp` and the size compare it whole. The answer to
-- NOP has 4 bytes: the NUL of the literal goes with it.
unfoldable pub agent_process_frame : Base64 → Bytes → List AgentAction
unfolding write_frame_to_server agent_handle_coded
agent_process_frame codec frame =
    if length frame == 0
    then []
    else if bytes_eq frame (codes "EXIT")
    then exit ∷ []
    else if bytes_eq frame (codes "PING")
    then write_frame_to_server (codes "PING") ∷ []
    else if bytes_eq frame (codes "NOP")
    then write_frame_to_server (codes "NOP" ++ 0 ∷ []) ∷ []
    else if ltb 1 (length frame) && starts_with_B frame
    then agent_handle_coded (codec.base64_decode (drop 1 frame))
    else []

-- The loop of `process_stdin`: `i`, `pre_frame_end + 1`, and the bytes from `i` on. The frames
-- found, and the bytes used.
unfoldable pub stdin_loop : Bytes → ℕ → ℕ → Bytes → List Bytes × ℕ
stdin_loop bytes i start [] = ([], start)
stdin_loop bytes i start (c ∷ cs) =
    let here = take (i - start) (drop start bytes) in
    let next = if c == b'!' || c == b'\n' || c == 0 then i + 1 else start in
    let (frames, used) = stdin_loop bytes (i + 1) next cs in
    (if c == b'!' then here ∷ frames else frames, used)

unfoldable pub process_stdin : Bytes → List Bytes × ℕ
unfolding stdin_loop
process_stdin bytes = stdin_loop bytes 0 0 bytes

-- The static buffer of `agent_read_stdin`, its `pending_send`, and whether the input is read.
pub record Agent : Type 0 where
  pub has_data : Bool
  pub data_cap : ℕ
  pub buffer : Bytes
  pub pending_send : ℕ
  pub reading : Bool

abbrev pub max_suggested_size : ℕ
max_suggested_size = 10240

abbrev pub tty_watermark : ℕ
tty_watermark = 100

abbrev pub size_max : ℕ
size_max = 2 ^ 64 - 1

-- `while (new_cap < need)`, on fuel; `none` is the return at a risk of overflow.
unfoldable pub grow_cap : ℕ → ℕ → ℕ → Result (Option ℕ)
grow_cap zero cap need = fault out_of_fuel
grow_cap (suc fuel) cap need =
    let again = grow_cap fuel (cap * 2) need in
    if ltb cap need then (if ltb (size_max / 2) cap then ok none else again) else ok (some cap)

-- The frames of one read, which `agent_process_frame` gets in this order.
pub record AgentRead : Type 0 where
  pub frames : List Bytes
  pub agent : Agent

-- Behind the growth of the buffer. `data_size` is an int.
abbrev pub agent_take : Agent → Bytes → Option ℕ → Result AgentRead
agent_take a buf none = ok (record { frames = []; agent = record a { reading = false } })
agent_take a buf (some cap) = do
  let bytes = a.buffer ++ buf
  guard (ltb (length bytes) (2 ^ 31)) int_overflow
  guard (leb (length bytes) cap) out_of_bounds
  let (frames, used) = process_stdin bytes
  guard (leb (length bytes - used) cap) aborted
  ok (record { frames = frames; agent = record a { data_cap = cap; buffer = drop used bytes } })

-- `agent_read_stdin` on a read that did not fail, up to the handling of the frames. The fuel is that
-- of `grow_cap`.
unfoldable pub agent_read_stdin : ℕ → Agent → Bytes → Result AgentRead
unfolding process_stdin
agent_read_stdin fuel a [] = ok (record { frames = []; agent = a })
agent_read_stdin fuel a (x ∷ xs) = do
  let buf = x ∷ xs
  let on = if ltb tty_watermark a.pending_send then false else a.reading
  let cap0 = if a.has_data then a.data_cap else 2 * max_suggested_size
  let b = record a { reading = on; has_data = true; data_cap = cap0 }
  guard (leb (length buf) max_suggested_size) aborted
  cap ← grow_cap fuel cap0 (length b.buffer + length buf)
  agent_take b buf cap

-- Read after read: the frames of all.
unfoldable pub agent_reads : ℕ → Agent → List Bytes → Result AgentRead
agent_reads fuel a [] = ok (record { frames = []; agent = a })
agent_reads fuel a (x ∷ xs) = do
  r ← agent_read_stdin fuel a x
  s ← agent_reads fuel r.agent xs
  ok (record { frames = r.frames ++ s.frames; agent = s.agent })

unfoldable pub agent_init : Agent
agent_init = record {
  has_data = false;
  data_cap = 0;
  buffer = [];
  pending_send = 0;
  reading = true;
}
