-- ===== src/Repl/Upload.antt =====
-- The command `upload` of src/repl.c, up to what the server does with its packet.
use termtunnel.Base.{
  ℕ, Bytes, bytes_eq, All, ◌≢◌, List, length, [], ◌+◌, ◌≤◌, ◌∷◌, arith, Bool-cases, codes, ◌≡◌,
  ◌==◌, inl, ok, inr, ◌++◌, refl, All-append, leb, length-append, false,
}
use termtunnel.Intent.RoundTrip.{IsPath, read_file_exchange-new_file_exchange_intent}
use termtunnel.Intent.{path_max, trans_mode_send_file}
use termtunnel.Server.{Server, server_handle_client_packet, file_send_start}
use termtunnel.Repl.{World, ReadEvent, send, say, uploads, proceed}
use termtunnel.Repl.Commands.{repl_execve, basename, basename_loop, upload_func, find_action}
use termtunnel.Command
use termtunnel.Packet.{max_payload}

not_empty : (b : ℕ) (bs : Bytes) → (length (b ∷ bs) == 0) ≡ false
not_empty b bs = ground arith

-- The last name of a path that is a C string within `n` bytes is one, too.
basename_loop-fits :
    (last name cs : Bytes)
    → All (λ a. a ≢ 0) last
    → All (λ a. a ≢ 0) name
    → All (λ a. a ≢ 0) cs
    → All (λ a. a ≢ 0) (basename_loop last name cs)
      × (length (basename_loop last name cs) ≤ length last + length name + length cs)
unfolding basename_loop
basename_loop-fits last [] [] l n h = (l, omega arith)
basename_loop-fits last (a ∷ r) [] l n h = rw (not_empty a r) (n, omega arith)
basename_loop-fits last [] (c ∷ cs) l n h = elim (Bool-cases (c == b'/')) [
  | inl e ↦ let d = basename_loop-fits last [] cs l tt h.1 in rw e (d.0, omega (arith, d.1))
  | inr e ↦
      let d = basename_loop-fits last (c ∷ []) cs l (h.0, tt) h.1 in rw e (d.0, omega (arith, d.1))
]
basename_loop-fits last (a ∷ r) (c ∷ cs) l n h = elim (Bool-cases (c == b'/')) [
  | inl e ↦
      let d = basename_loop-fits (a ∷ r) [] cs n tt h.1 in
      rw (e, not_empty a r) (d.0, omega (arith, d.1))
  | inr e ↦
      let d =
        basename_loop-fits last ((a ∷ r) ++ c ∷ []) cs l (All-append _ (a ∷ r) (c ∷ []) n (h.0, tt))
          h.1 in
      rw e (d.0, omega (arith, d.1, length-append r (c ∷ [])))
]

pub basename-IsPath : (s : Bytes) → s ≢ [] → IsPath s → IsPath (basename s)
unfolding basename
basename-IsPath [] n h = absurd (n refl)
basename-IsPath (c ∷ cs) n h =
    let d = basename_loop-fits [] [] (c ∷ cs) tt tt h.no_nul in
    elim (Bool-cases (length (basename_loop [] [] (c ∷ cs)) == 0)) [
      | inl e ↦ rw e (record { no_nul = ((λ z. absurd (omega arith)), tt); fits = omega arith })
      | inr e ↦ rw e (record { no_nul = d.0; fits = omega (arith, d.1, h.fits) })
    ]

-- `upload PATH`, where the path is a C string that is not empty and fits its field: the command
-- sends one packet and reads nothing, and the server that gets the packet starts to send the file
-- at that path under the last name of the path, and does nothing else. The packet is within the
-- limit of the server's parser.
pub upload_starts :
    (w : World) (url : Bytes) (evs : List ReadEvent) (s : Server)
    → path_max + path_max + 4 ≤ length w.memory
    → url ≢ []
    → IsPath url
    → (buf : Bytes) × (repl_execve w (codes "upload" ∷ url ∷ []) evs
        ≡ ok (record {
          code = proceed;
          actions = say (uploads url) ∷ send Command.file_exchange buf ∷ [];
          events = evs;
        }))
      × (server_handle_client_packet s Command.file_exchange buf
          ≡ ok (s, file_send_start url (basename url) ∷ []))
      × (length buf ≤ max_payload)
unfolding repl_execve find_action upload_func server_handle_client_packet bytes_eq
upload_starts w url evs s m n h =
    let (buf, made, seen, size) =
      read_file_exchange-new_file_exchange_intent w.memory url (basename url) trans_mode_send_file m
        h (basename-IsPath url n h) (omega arith) in
    let short : leb path_max (length url) ≡ false = ground (arith, h.fits) in
    (buf, rw (short, made) refl, rw seen refl, omega (arith, size))
