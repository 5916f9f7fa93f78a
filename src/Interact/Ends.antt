-- ===== src/Interact/Ends.antt =====
-- How a session of the client ends: from the program's exit, through `do_waitpid` of src/pty.c and
-- `send_exit_message` of src/pipe.c, to `interact_run` of src/repl.c.
use termtunnel.Base.{
  ℕ, Bytes, List, All, true, [], ◌≡◌, map, ok, ◌++◌, refl, ◌∙◌, ◌∷◌, ap, sym, arith, append_assoc,
  Bool, length, ◌≤◌, false,
}
use termtunnel.Interact.Turns.{
  Output, IsTurn, pipe_turns, after_all, output_packet, pings, text, ping,
}
use termtunnel.Server.{Server}
use termtunnel.Base64.{Base64}
use termtunnel.Command
use termtunnel.Packet.{Packet}
use termtunnel.Interact.{
  Turn, Ending, interact_run, ReadEvent, ready, Client, interact_income, none_ready, Interaction,
  interact_packet, interact_keys, recv_data, entered,
}
use termtunnel.Words.{le_bytes, length-le_bytes}
use termtunnel.Repl.{ReadEvent, recv_data, max_message_size}
use termtunnel.Repl.Recv.{IsRead, received, stream, recv_data_gets}
use termtunnel.Packet.Stream.{encode_all, encode}
use termtunnel.Server.Greets.{enter_packet}
use termtunnel.Income.{Income}

-- Reads of a pipe that give its bytes, at least one with each read, whatever interrupts them.
abbrev pub IsPipe : (Bytes → List ReadEvent) → Type 0
IsPipe pipe = (b : Bytes) → All IsRead (pipe b) × (stream (pipe b) ≡ b)

-- Turns that find the pipe ready as often as wanted, with anything else between them.
abbrev pub IsSchedule : (ℕ → List Turn) → Type 0
IsSchedule turns = (n : ℕ) → All IsTurn (turns n) × (pipe_turns (turns n) ≡ n)

abbrev exit_packet : ℕ → Packet
exit_packet k = record { type = Command.cmd_exit; payload = le_bytes 4 k }

-- The turn that takes a packet of the server.
abbrev pub pipe_turn : Turn
pipe_turn = ready none_ready true

abbrev pub ended : Ending → Client → List ReadEvent → List Turn → Interaction
ended ending c evs us = record {
  ending = ending;
  client = c;
  actions = [];
  events = evs;
  turns = us;
}

-- The part of a turn that a packet ends.
income_ends :
    (c c' : Client) (p : Packet) (ending : Ending) (evs more : List ReadEvent)
    → recv_data evs ≡ ok (received p, more)
    → interact_packet c (received p) ≡ ok (ending, c', [])
    → interact_income c true evs ≡ ok (ending, c', [], more)
unfolding interact_income
income_ends c c' p ending evs more e f = rw (e, f) refl

packet_enters :
    (c : Client) (oneshot : Bool)
    → interact_packet c (received (enter_packet oneshot))
      ≡ ok (entered, record c { oneshot_mode = oneshot }, [])
unfolding interact_packet le_bytes
packet_enters c true = refl
packet_enters c false = refl

enter_packet_fits : (oneshot : Bool) → length (enter_packet oneshot).payload ≤ max_message_size
enter_packet_fits true = omega (arith, length-le_bytes 8 1)
enter_packet_fits false = omega arith

pub interact_enters :
    (c : Client) (oneshot : Bool) (us : List Turn) (evs : List ReadEvent) (rest : Bytes)
    → All IsRead evs
    → stream evs ≡ encode (enter_packet oneshot) ++ rest
    → (more : List ReadEvent) × (interact_run c (pipe_turn ∷ us) evs
        ≡ ok (ended entered (record c { oneshot_mode = oneshot }) more us))
      × (stream more ≡ rest)
      × All IsRead more
unfolding interact_run interact_keys
interact_enters c oneshot us evs rest g e =
    let (more, ran, left, good) =
      recv_data_gets (enter_packet oneshot) rest evs (omega arith) (enter_packet_fits oneshot) g
        e in
    (
      more,
      rw
          (income_ends c (record c { oneshot_mode = oneshot }) (enter_packet oneshot) entered evs
            more ran (packet_enters c oneshot))
          refl,
      left,
      good,
    )

-- The outputs of a session and then one more packet.
pub session_stream :
    (os : List Output) (p : Packet)
    → encode_all (map output_packet os ++ p ∷ [])
      ≡ encode_all (map output_packet os) ++ (encode p ++ [])
session_stream [] p = refl
session_stream (o ∷ os) p =
    ap (λ l. encode (output_packet o) ++ l) (session_stream os p)
    ∙ sym (append_assoc (encode (output_packet o)) _ _)

-- Without pings the client stays as it is.
pub after_all_same : (c : Client) (os : List Output) → pings os ≡ 0 → after_all c os ≡ c
after_all_same c [] h = refl
after_all_same c (text b ∷ os) h = after_all_same c os h
after_all_same c (ping ∷ os) h = absurd (omega arith)
