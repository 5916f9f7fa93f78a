-- ===== src/Agent/Stdin.antt =====
-- `agent_read_stdin` of src/agent.c: its buffer grows in time, and over all reads it hands on the
-- frames of the whole stream.
use termtunnel.Base.{
  ℕ, Bytes, length, ◌*◌, ◌≤◌, ◌≡◌, if◌then◌else◌, ◌+◌, true, ◌^◌, ok, some, Bool-cases, ◌++◌, arith,
  ltb, inl, inr, [], ◌∙◌, refl, List, All, flatten, length-append, false, drop, ap, length-drop,
}
use termtunnel.Agent.{
  Agent, grow_cap, Bytes, agent_read_stdin, length, AgentRead, max_suggested_size, true, ok, some,
  ◌∷◌, ltb, [], List, agent_reads, process_stdin, tty_watermark, false, drop, agent_init,
}
use termtunnel.Agent.Frames.{
  NoEnd, frames_of, process_stdin_frames, frames_of-append, frames_of-NoEnd, frames_of_unfinished,
  length_unfinished,
}

pub record IsValid (a : Agent) : Type 0 where
  pub unfinished : NoEnd a.buffer
  pub within : length a.buffer ≤ (if a.has_data then a.data_cap else 0)
  pub cap_low : a.has_data ≡ true → 2 * max_suggested_size ≤ a.data_cap

-- One doubling is enough for a read of the largest size.
grow_cap_enough :
    (cap need : ℕ)
    → 2 * max_suggested_size ≤ cap
    → need ≤ cap + max_suggested_size
    → need ≤ 2 ^ 30
    → (c : ℕ) × (grow_cap 2 cap need ≡ ok (some c)) × (need ≤ c) × (cap ≤ c)
unfolding grow_cap
grow_cap_enough cap need h k l = elim (Bool-cases (ltb cap need)) [
  | inl e ↦ (cap * 2, ground arith, ground arith, omega arith)
  | inr e ↦ (cap, ground arith, ground arith, omega arith)
]

-- What one read leaves.
pub record Reads (acc bytes : Bytes) (r : AgentRead) : Type 0 where
  pub found : r.frames ≡ (frames_of acc bytes).0
  pub left : r.agent.buffer ≡ (frames_of acc bytes).1
  pub valid : IsValid r.agent

agent_read_stdin-Reads :
    (a : Agent) (buf : Bytes)
    → IsValid a
    → length buf ≤ max_suggested_size
    → length a.buffer + length buf ≤ 2 ^ 30
    → (r : AgentRead) × (agent_read_stdin 2 a buf ≡ ok r) × Reads a.buffer buf r
unfolding agent_read_stdin
agent_read_stdin-Reads a [] v h l = (
  record { frames = []; agent = a },
  refl,
  record { found = unfold frames_of in refl; left = unfold frames_of in refl; valid = v },
)
agent_read_stdin-Reads a (x ∷ xs) v h l =
    let buf = x ∷ xs in
    let bytes = a.buffer ++ buf in
    let cap0 = if a.has_data then a.data_cap else 2 * max_suggested_size in
    let (cap, grown, room, more) =
      grow_cap_enough cap0 (length a.buffer + length buf) (ground (arith, v.cap_low))
        (ground (arith, v.within, v.cap_low)) l in
    let (found, left) = process_stdin_frames bytes in
    let whole : frames_of [] bytes ≡ frames_of a.buffer buf =
      frames_of-append [] a.buffer buf ∙ rw (frames_of-NoEnd [] a.buffer v.unfinished) in
    let used = (process_stdin bytes).1 in
    let on = if ltb tty_watermark a.pending_send then false else a.reading in
    let rest : drop used bytes ≡ (frames_of a.buffer buf).1 = left ∙ ap (λ p. p.1) whole in
    let b : Agent = record {
      has_data = true;
      data_cap = cap;
      buffer = drop used bytes;
      pending_send = a.pending_send;
      reading = on;
    } in
    let size = length-append a.buffer buf in
    (
      record { frames = (process_stdin bytes).0; agent = b },
      ground (arith, grown, room, size, h),
      record {
        found = found ∙ ap (λ p. p.0) whole;
        left = rest;
        valid = record {
          unfinished = rw rest (frames_of_unfinished a.buffer buf v.unfinished);
          within = omega (arith, length-drop used bytes, size);
          cap_low = λ e. ground (arith, more, v.cap_low);
        };
      },
    )

-- The bytes of all reads, each of them of a size that `alloc_buffer` allows.
pub record IsReadable (xs : List Bytes) : Type 0 where
  pub sizes : All (λ x. length x ≤ max_suggested_size) xs
  pub total : length (flatten xs) ≤ 2 ^ 30

agent_reads_from :
    (xs : List Bytes) (a : Agent)
    → IsValid a
    → All (λ x. length x ≤ max_suggested_size) xs
    → length a.buffer + length (flatten xs) ≤ 2 ^ 30
    → (r : AgentRead) × (agent_reads 2 a xs ≡ ok r) × Reads a.buffer (flatten xs) r
unfolding agent_reads
agent_reads_from [] a v s t = (
  record { frames = []; agent = a },
  refl,
  record { found = unfold frames_of in refl; left = unfold frames_of in refl; valid = v },
)
agent_reads_from (x ∷ xs) a v s t =
    let size = length-append x (flatten xs) in
    let (r, ran, d) = agent_read_stdin-Reads a x v s.0 (omega arith) in
    let (r', ran', d') =
      agent_reads_from xs r.agent d.valid s.1
        (omega (arith, ap length d.left, length_unfinished a.buffer x, size)) in
    let whole = frames_of-append a.buffer x (flatten xs) in
    (
      record { frames = r.frames ++ r'.frames; agent = r'.agent },
      rw (ran, ran'),
      record {
        found = rw (whole, d.found, d'.found, d.left);
        left = rw (whole, d'.left, d.left);
        valid = d'.valid;
      },
    )

pub agent_init-IsValid : IsValid agent_init
unfolding agent_init
agent_init-IsValid = record { unfinished = tt; within = omega arith; cap_low = λ e. cc }

-- However the stream of the terminal is cut into reads, of sizes that `alloc_buffer` allows and of
-- at most 2^30 bytes in all, the agent that has just started always returns from them, gets the
-- frames of the stream, and keeps its unfinished text.
pub agent_reads_frames :
    (xs : List Bytes)
    → IsReadable xs
    → (r : AgentRead) × (agent_reads 2 agent_init xs ≡ ok r)
      × (r.frames ≡ (frames_of [] (flatten xs)).0)
      × (r.agent.buffer ≡ (frames_of [] (flatten xs)).1)
unfolding agent_init
agent_reads_frames xs h =
    let (r, ran, d) =
      agent_reads_from xs agent_init agent_init-IsValid h.sizes (omega (arith, h.total)) in
    (r, ran, d.found, d.left)
