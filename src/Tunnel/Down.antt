-- ===== src/Tunnel/Down.antt =====
-- From the server to the agent: `send_base64binary_to_agent` and `agent_read_stdin`.
use termtunnel.Base.{
  List, Bytes, ◌∷◌, All, ◌++◌, ◌≢◌, flatten, arith, [], ◌≡◌, map, append-nil, some, ok, refl,
  append_assoc, ap, ◌∙◌, bytes_eq,
}
use termtunnel.Base64.{Base64, IsBase64, IsCoded}
use termtunnel.Agent.{
  agent_reads, agent_init, AgentRead, agent_process_frame, agent_handle_coded, AgentAction,
  vnet_data,
}
use termtunnel.Agent.Stdin.{agent_reads_frames, IsReadable}
use termtunnel.Agent.Frames.{frames_of, NoEnd}
use termtunnel.Server.{send_base64binary_to_agent, send_data_to_agent}
use termtunnel.Tunnel.{Carried, tty_part, vnet_frames}

-- What the agent does with the frames, one after the other.
abbrev pub process_frames : Base64 → List Bytes → List AgentAction
process_frames codec fs = flatten (map (agent_process_frame codec) fs)

-- What the server types for the frames of its network stack.
abbrev pub typed : Base64 → List Bytes → Bytes
typed codec [] = []
typed codec (x ∷ xs) = tty_part (send_base64binary_to_agent codec x) ++ typed codec xs

coded-NoEnd : (t : Bytes) → All IsCoded t → NoEnd t
coded-NoEnd [] h = tt
coded-NoEnd (a ∷ t) h =
    (ground (arith, h.0.not_mark, h.0.not_newline, h.0.not_nul), coded-NoEnd t h.1)

-- A frame that has been typed, and what follows.
frames_of_typed :
    (acc t rest : Bytes)
    → NoEnd t
    → frames_of acc (t ++ b'!' ∷ b'\n' ∷ rest)
      ≡ ((acc ++ t) ∷ (frames_of [] rest).0, (frames_of [] rest).1)
unfolding frames_of
frames_of_typed acc [] rest h = rw append-nil refl
frames_of_typed acc (a ∷ t) rest h =
    rw h.0
      (ground (arith, h.0, frames_of_typed (acc ++ a ∷ []) t rest h.1, append_assoc acc (a ∷ []) t))

process_coded :
    (codec : Base64) (t x : Bytes)
    → t ≢ []
    → x ≢ []
    → codec.base64_decode t ≡ some x
    → agent_process_frame codec (b'B' ∷ t) ≡ vnet_data x ∷ []
unfolding agent_process_frame agent_handle_coded bytes_eq
process_coded codec [] x u n e = absurd (u refl)
process_coded codec (c ∷ t) [] u n e = absurd (n refl)
process_coded codec (c ∷ t) (a ∷ x) u n e = rw e (ground arith)

tty_part_coded :
    (codec : Base64) (t x : Bytes)
    → codec.base64_encode x ≡ some t
    → tty_part (send_base64binary_to_agent codec x) ≡ (b'B' ∷ t) ++ b'!' ∷ b'\n' ∷ []
unfolding send_base64binary_to_agent send_data_to_agent
tty_part_coded codec t x e = rw (tty_part, e) (append-nil _)

typed_frames :
    (codec : Base64) (Fits : Bytes → Type 0) (ps : List Bytes)
    → IsBase64 codec Fits
    → All (Carried codec Fits) ps
    → vnet_frames (process_frames codec (frames_of [] (typed codec ps)).0) ≡ ps
typed_frames codec Fits [] base h = unfold frames_of in refl
typed_frames codec Fits (x ∷ ps) base h =
    let (t, coded_as, letters, some_text, back, back_marked) = base.encodes x h.0.fits in
    let one =
      frames_of_typed [] (b'B' ∷ t) (typed codec ps) (ground arith, coded-NoEnd t letters) in
    let whole : typed codec (x ∷ ps) ≡ (b'B' ∷ t) ++ b'!' ∷ b'\n' ∷ typed codec ps =
      ap (λ l. l ++ typed codec ps) (tty_part_coded codec t x coded_as)
      ∙ append_assoc (b'B' ∷ t) (b'!' ∷ b'\n' ∷ []) (typed codec ps) in
    rw (whole, one, process_coded codec t x some_text h.0.some_bytes back)
      (ap (◌∷◌ x) (typed_frames codec Fits ps base h.1))

-- Let the server type frames of its network stack with `send_base64binary_to_agent`, none of them
-- empty and each of less than 4000 bytes in base64. However these bytes are cut into reads, of sizes that `alloc_buffer` allows and of at
-- most 2^30 bytes in all, the agent that has just started always returns from them, and its
-- network stack gets exactly these frames in their order.
pub tunnel_down :
    (codec : Base64) (Fits : Bytes → Type 0) (ps xs : List Bytes)
    → IsBase64 codec Fits
    → All (Carried codec Fits) ps
    → IsReadable xs
    → flatten xs ≡ typed codec ps
    → (r : AgentRead) × (agent_reads 2 agent_init xs ≡ ok r)
      × (vnet_frames (process_frames codec r.frames) ≡ ps)
tunnel_down codec Fits ps xs base h readable e =
    let (r, ran, found, left) = agent_reads_frames xs readable in
    (r, ran, rw (found, e) (typed_frames codec Fits ps base h))
