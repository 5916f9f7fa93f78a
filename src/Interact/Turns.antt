-- ===== src/Interact/Turns.antt =====
-- `interact_run` of src/repl.c over many turns of `select`, with the packets of the server in the pipe.
use termtunnel.Base.{
  ℕ, Bytes, length, List, [], ◌≤◌, suc, map, ◌++◌, ◌+◌, ◌≢◌, ◌≡◌, true, ◌∷◌, ok, ◌<◌, ap, ◌^◌, refl,
  ◌∙◌, All, sym, append_assoc, arith, take, if◌then◌else◌, lt→ltb, ◌==◌, take_whole,
}
use termtunnel.Repl.{ReadEvent, max_message_size}
use termtunnel.Repl.Recv.{recv_data_gets, stream, IsRead}
use termtunnel.Interact.{
  Turn, Packet, Keys, ready, interact_keys, Client, interact_income, typed, Written, ReadEvent,
  interact_packet, select_interrupted, server_part, stdout_part, select_failed, to_server,
  none_ready, to_stdout, running, read_failed,
}
use termtunnel.Packet.Stream.{encode}
use termtunnel.Command
use termtunnel.Packet.{Packet}
use termtunnel.Words.{le_bytes}

-- What the server sends while the terminal is passed through: output, and answers to pings.
pub data Output : Type 0 where
  text : Bytes → Output
  ping : Output

abbrev pub output_packet : Output → Packet
output_packet (text b) = record { type = Command.tty_plain_data; payload = b }
output_packet ping = record { type = Command.tty_ping; payload = [] }

abbrev pub OutputFits : Output → Type 0
OutputFits (text b) = length b ≤ max_message_size
OutputFits ping = Unit

abbrev pub texts : List Output → Bytes
texts [] = []
texts (text b ∷ os) = b ++ texts os
texts (ping ∷ os) = texts os

abbrev pub pings : List Output → ℕ
pings [] = 0
pings (text b ∷ os) = pings os
pings (ping ∷ os) = suc (pings os)

-- `BUFSIZ` of glibc.
abbrev pub bufsiz : ℕ
bufsiz = 8192

-- Reads of the terminal do not fail and are not at its end.
abbrev pub IsKeys : Keys → Type 0
IsKeys none_ready = Unit
IsKeys (typed b) = b ≢ [] × (length b ≤ bufsiz)
IsKeys read_failed = ⊥

abbrev pub IsTurn : Turn → Type 0
IsTurn select_interrupted = Unit
IsTurn select_failed = ⊥
IsTurn (ready keys pipe) = IsKeys keys

abbrev tty_packet : Bytes → Packet
tty_packet b = record { type = Command.tty_plain_data; payload = b }

abbrev pub keys_typed : Keys → List Bytes
keys_typed (typed b) = b ∷ []
keys_typed _ = []

-- The reads of the terminal, and the number of turns that have the pipe ready.
abbrev pub typed_in : List Turn → List Bytes
typed_in [] = []
typed_in (ready keys pipe ∷ ts) = keys_typed keys ++ typed_in ts
typed_in (_ ∷ ts) = typed_in ts

abbrev pub pipe_turns : List Turn → ℕ
pipe_turns [] = 0
pipe_turns (ready keys true ∷ ts) = suc (pipe_turns ts)
pipe_turns (_ ∷ ts) = pipe_turns ts

abbrev pub typed_packets : List Bytes → List Packet
typed_packets = map tty_packet

pub server_part-append :
    (xs ys : List Written) → server_part (xs ++ ys) ≡ server_part xs ++ server_part ys
server_part-append [] ys = refl
server_part-append (to_server n b ∷ xs) ys =
    ap (◌∷◌ (record { type = n; payload = b })) (server_part-append xs ys)
server_part-append (to_stdout b ∷ xs) ys = server_part-append xs ys

pub stdout_part-append :
    (xs ys : List Written) → stdout_part (xs ++ ys) ≡ stdout_part xs ++ stdout_part ys
stdout_part-append [] ys = refl
stdout_part-append (to_server n b ∷ xs) ys = stdout_part-append xs ys
stdout_part-append (to_stdout b ∷ xs) ys =
    ap (λ l. b ++ l) (stdout_part-append xs ys) ∙ sym (append_assoc b _ _)

-- The keys of a turn become a packet.
pub keys_sent :
    (k : Keys)
    → IsKeys k
    → (ks : List Written) × (interact_keys k ≡ ok ks)
      × (server_part ks ≡ typed_packets (keys_typed k))
      × (stdout_part ks ≡ [])
unfolding interact_keys
keys_sent none_ready h = ([], refl, refl, refl)
keys_sent (typed []) h = absurd (h.0 refl)
keys_sent (typed (a ∷ r)) h = (to_server 1 (a ∷ r) ∷ [], refl, refl, refl)
keys_sent read_failed h = absurd h

abbrev pub after_one : Client → Output → Client
after_one c (text b) = c
after_one c ping = record c { ping_count = c.ping_count + 1 }

-- The client behind the packets.
abbrev pub after_all : Client → List Output → Client
after_all c [] = c
after_all c (o ∷ os) = after_all (after_one c o) os

-- A packet of the server is taken in one turn.
pub record Takes (c : Client) (o : Output) (evs : List ReadEvent) (rest : Bytes) : Type 0 where
  pub out : List Written
  pub more : List ReadEvent
  pub ran : interact_income c true evs ≡ ok (running, after_one c o, out, more)
  pub sent : server_part out ≡ []
  pub shown : stdout_part out ≡ texts (o ∷ [])
  pub left : stream more ≡ rest
  pub good : All IsRead more

take_received : (t b : Bytes) → take (length b) (if length b == 0 then t else b) ≡ b
take_received t [] = refl
take_received t (a ∷ b) = ground (arith, take_whole (a ∷ b))

pub interact_income-Takes :
    (c : Client) (o : Output) (evs : List ReadEvent) (rest : Bytes)
    → OutputFits o
    → c.ping_count + pings (o ∷ []) < 2 ^ 63
    → All IsRead evs
    → stream evs ≡ encode (output_packet o) ++ rest
    → Takes c o evs rest
unfolding interact_income interact_packet
interact_income-Takes c (text b) evs rest l n h e =
    let (more, ran, left, good) =
      recv_data_gets (output_packet (text b)) rest evs (omega arith) l h e in
    record {
      out = to_stdout b ∷ [];
      more = more;
      ran = rw (ran, take_received (le_bytes 8 1) b) refl;
      sent = refl;
      shown = refl;
      left = left;
      good = good;
    }
interact_income-Takes c ping evs rest l n h e =
    let (more, ran, left, good) =
      recv_data_gets (output_packet ping) rest evs (omega arith) (omega arith) h e in
    record {
      out = [];
      more = more;
      ran = rw (ran, lt→ltb (c.ping_count + 1) (2 ^ 63) n) refl;
      sent = refl;
      shown = refl;
      left = left;
      good = good;
    }
