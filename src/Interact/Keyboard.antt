-- ===== src/Interact/Keyboard.antt =====
-- From the keyboard of the client to the terminal of the program: `interact_run` of src/repl.c, the
-- pipe, and `parser` and `server_handle_client_packet` of src/pipe.c.
use termtunnel.Base.{
  Bytes, List, flatten, ◌≡◌, All, ok, ◌∷◌, length, ap, arith, ◌++◌, ◌+◌, [], ◌<◌, refl, ◌^◌, map,
  false, ◌∙◌, sym, append-nil,
}
use termtunnel.Interact.Turns.{
  Output, IsTurn, typed_packets, typed_in, pipe_turns, OutputFits, pings, output_packet, texts,
}
use termtunnel.Interact.Goes.{interact_run-Goes}
use termtunnel.Packet.Reads.{read_all-encode_all}
use termtunnel.Server.{serve_all, server_handle_client_packet, Server, ServerAction, to_tty}
use termtunnel.Tunnel.{tty_part}
use termtunnel.Interact.{
  interact_run, Turn, Client, ReadEvent, ready, typed, select_interrupted, select_failed,
  none_ready, read_failed, Interaction, running, stdout_part, server_part,
}
use termtunnel.Packet.Stream.{IsSendable, encode_all}
use termtunnel.Repl.{ReadEvent}
use termtunnel.Repl.Recv.{IsRead, stream}
use termtunnel.Packet.{Reply, read_all, parser_init}

-- The bytes of a stream in the pieces in which a pipe gives them.
abbrev pub IsCut : (Bytes → List Bytes) → Type 0
IsCut cut = (b : Bytes) → flatten (cut b) ≡ b

typed_packets-IsSendable :
    (ts : List Turn) → All IsTurn ts → All IsSendable (typed_packets (typed_in ts))
typed_packets-IsSendable [] h = tt
typed_packets-IsSendable (select_interrupted ∷ ts) h = typed_packets-IsSendable ts h.1
typed_packets-IsSendable (select_failed ∷ ts) h = typed_packets-IsSendable ts h.1
typed_packets-IsSendable (ready none_ready p ∷ ts) h = typed_packets-IsSendable ts h.1
typed_packets-IsSendable (ready (typed b) p ∷ ts) h = (
  record { type_fits = omega arith; size_fits = omega (arith, h.0.1) },
  typed_packets-IsSendable ts h.1,
)
typed_packets-IsSendable (ready read_failed p ∷ ts) h = typed_packets-IsSendable ts h.1

serve_typed :
    (s : Server) (bs : List Bytes)
    → (acts : List ServerAction) × (serve_all s (typed_packets bs) ≡ ok (s, acts))
      × (tty_part acts ≡ flatten bs)
unfolding serve_all server_handle_client_packet
serve_typed s [] = ([], refl, refl)
serve_typed s (b ∷ bs) =
    let (acts, e, t) = serve_typed s bs in (to_tty b ∷ acts, rw e refl, ap (λ l. b ++ l) t)

-- In turns that find the terminal or the pipe ready, in any order, and are interrupted at any
-- time: let each read of the terminal give between 1 and `BUFSIZ` bytes, let the pipe hold a
-- packet of output, of at most 64 MiB, or a ping for each turn that finds it ready, and let the
-- count of pings stay in its range. Then `interact_run` takes all of them in and waits for more.
-- It has written exactly the output, in order, to its terminal; and however the other pipe cuts
-- what it has sent, the server's parser takes it without an error, and the server types exactly
-- the bytes of the keyboard, in order, on the terminal of the program.
pub interact_run-passes :
    (ts : List Turn) (os : List Output) (c : Client) (evs : List ReadEvent) (s : Server)
    (cut : Bytes → List Bytes)
    → All IsTurn ts
    → pipe_turns ts ≡ length os
    → All OutputFits os
    → c.ping_count + pings os < 2 ^ 63
    → All IsRead evs
    → stream evs ≡ encode_all (map output_packet os)
    → IsCut cut
    → (r : Interaction) × (interact_run c ts evs ≡ ok r)
      × (r.ending ≡ running)
      × (stdout_part r.actions ≡ texts os)
      × (q : Reply) × (read_all parser_init (cut (encode_all (server_part r.actions))) ≡ ok q)
      × (q.failed ≡ false)
      × (acts : List ServerAction) × (serve_all s q.packets ≡ ok (s, acts))
      × (tty_part acts ≡ flatten (typed_in ts))
unfolding interact_run
interact_run-passes ts os c evs s cut h n f l g e k =
    let r = interact_run-Goes ts [] os c evs [] h n f l g (e ∙ sym (append-nil _)) in
    let (q, ran, packets, good, empty, idle) =
      read_all-encode_all (typed_packets (typed_in ts))
        (cut (encode_all (server_part (r.actions ++ [])))) (typed_packets-IsSendable ts h)
        (k _ ∙ rw (append-nil r.actions, r.sent) refl) in
    let (acts, served, typed_there) = serve_typed s (typed_in ts) in
    (
      _,
      ap (λ l. interact_run c l evs) (sym (append-nil ts)) ∙ r.ran,
      refl,
      ap stdout_part (append-nil r.actions) ∙ r.shown,
      q,
      ran,
      good,
      acts,
      rw packets served,
      typed_there,
    )
