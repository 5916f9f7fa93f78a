-- ===== src/Packet/Writes.antt =====
-- What the server writes for a packet: `comm_write_packet_to_cli` and
-- `comm_write_static_packet_to_cli` of src/pipe.c, each as three writes.
use termtunnel.Base.{ℕ, Bytes, List, Bool, ◌≡◌, length, ◌∷◌, ap, true, ◌++◌, [], false, append-nil}
use termtunnel.Packet.{send_binary, le_bytes}

-- The buffers handed to `comm_write_data_to_cli`, and whether each is freed behind its write.
unfoldable pub comm_write_packet_to_cli : ℕ → Bytes → List (Bytes × Bool)
comm_write_packet_to_cli type buf =
    (le_bytes 8 (length buf), true) ∷ (le_bytes 8 type, true) ∷ (buf, true) ∷ []

unfoldable pub comm_write_static_packet_to_cli : ℕ → Bytes → List (Bytes × Bool)
comm_write_static_packet_to_cli type buf =
    (le_bytes 8 (length buf), true) ∷ (le_bytes 8 type, true) ∷ (buf, false) ∷ []

abbrev pub written : List (Bytes × Bool) → Bytes
written [] = []
written (w ∷ ws) = w.0 ++ written ws

-- Both put on the pipe what the client's `send_binary` would.
pub written-comm_write_packet_to_cli :
    (type : ℕ) (buf : Bytes)
    → (written (comm_write_packet_to_cli type buf) ≡ send_binary type buf)
      × (written (comm_write_static_packet_to_cli type buf) ≡ send_binary type buf)
unfolding comm_write_packet_to_cli comm_write_static_packet_to_cli send_binary
written-comm_write_packet_to_cli type buf =
    let e = ap (λ l. le_bytes 8 (length buf) ++ (le_bytes 8 type ++ l)) (append-nil buf) in (e, e)
