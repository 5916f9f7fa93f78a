-- ===== src/Repl.antt =====
-- The client's side of src/repl.c: reading the server's packets and the words of a command line, and
-- the types of its commands. `malloc`, `strdup` and writes succeed.
pub mod Commands
pub mod Runs
pub mod Words
pub mod Recv
pub mod Upload
pub mod Listen
use termtunnel.Base.{
  ℕ, Bytes, List, Option, Bool, [], Result, leb, suc, ◌∷◌, if◌then◌else◌, codes, none, ok, ◌&&◌,
  ◌==◌, length, some, ◌++◌, bytes_eq, true, false, fault, ◌>>◌, ◌>>=◌, aborted, ◌||◌, ◌*◌, ltb,
  out_of_bounds, guard, out_of_fuel, zero, ◌-◌, ◌+◌, ◌^◌, take, drop, int_overflow, ◌%◌,
}
use termtunnel.Intent.{
  until_nul, new_file_exchange_intent, path_max, forward_static_port_map_listen_on_agent,
  trans_mode_send_file, trans_mode_recv_file, forward_static_port_map, fill_field,
  new_port_forward_intent,
}
use termtunnel.Command
use termtunnel.Words.{from_le, is_negative64}

-- What reads of the pipe return, in order: bytes, or -1 with EINTR. At the end of the list the pipe
-- is at its end. A read that asks for less than the next bytes leaves the rest of them.
pub data ReadEvent : Type 0 where
  got : Bytes → ReadEvent
  interrupted : ReadEvent

-- `expect_read`: the bytes wanted and the reads to come. An end of file fails the `CHECK`.
unfoldable pub expect_read : ℕ → List ReadEvent → Result (Bytes × List ReadEvent)
expect_read zero evs = ok ([], evs)
expect_read (suc n) [] = fault aborted
expect_read (suc n) (interrupted ∷ evs) = expect_read (suc n) evs
expect_read (suc n) (got b ∷ evs) =
    let rest = expect_read (suc n - length b) evs in
    if length b == 0
    then fault aborted
    else if ltb (suc n) (length b)
    then ok (take (suc n) b, got (drop (suc n) b) ∷ evs)
    else (rest >>= λ r. ok (b ++ r.0, r.1))

-- What `recv_data` sets: `buf` is the memory at `*retbuf`, which is NULL for a size out of range.
pub record Received : Type 0 where
  pub type : ℕ
  pub buf : Option Bytes
  pub size : ℕ

-- 64 MiB
abbrev pub max_message_size : ℕ
max_message_size = 67108864

-- A packet without a payload leaves the type in the eight bytes of the buffer.
unfoldable pub recv_data : List ReadEvent → Result (Received × List ReadEvent)
unfolding expect_read
recv_data evs = do
  a ← expect_read 8 evs
  let msg_size = from_le a.0
  if is_negative64 msg_size || ltb max_message_size msg_size
      then ok (record { type = 0; buf = none; size = 0 }, a.1)
      else (do
        b ← expect_read 8 a.1
        c ← expect_read msg_size b.1
        ok (
          record {
            type = from_le b.0;
            buf = some (if msg_size == 0 then b.0 else c.0);
            size = msg_size;
          },
          c.1,
        ))

pub data SplitState : Type 0 where
  dull in_word in_string : SplitState

-- `isspace` in the C locale.
abbrev pub isspace : ℕ → Bool
isspace c = (leb 9 c && leb c 13) || c == 32

-- The loop of `split`: the places left in `argv`, the state, and the text from `start_of_word` on.
unfoldable pub split_loop : ℕ → SplitState → Bytes → Bytes → List Bytes
split_loop zero state word bytes = []
split_loop (suc room) dull word [] = []
split_loop (suc room) in_word word [] = word ∷ []
split_loop (suc room) in_string word [] = word ∷ []
split_loop (suc room) dull word (c ∷ cs) =
    if isspace c
    then split_loop (suc room) dull [] cs
    else if c == b'"'
    then split_loop (suc room) in_string [] cs
    else split_loop (suc room) in_word (c ∷ []) cs
split_loop (suc room) in_string word (c ∷ cs) =
    if c == b'"'
    then word ∷ split_loop room dull [] cs
    else split_loop (suc room) in_string (word ++ c ∷ []) cs
split_loop (suc room) in_word word (c ∷ cs) =
    if isspace c
    then word ∷ split_loop room dull [] cs
    else split_loop (suc room) in_word (word ++ c ∷ []) cs

-- `split` of a buffer with this text: the words as they stand in it afterwards.
unfoldable pub split : Bytes → ℕ → List Bytes
unfolding split_loop
split buffer argv_size = split_loop argv_size dull [] (until_nul buffer)

-- What the user is told.
pub data Notice : Type 0 where
  usage : Bytes → Notice
  not_found : Bytes → Notice
  help download_usage invalid_forward_args path_not_exist path_too_long repl_only the_end : Notice
  uploads : Bytes → Notice
  downloads : Bytes → Bytes → Notice
  reply_text : Bytes → Notice
  reply_type : ℕ → Notice
  running_tasks : ℕ → Notice

pub data ClientAction : Type 0 where
  send : ℕ → Bytes → ClientAction
  say : Notice → ClientAction

-- What a command returns: `proceed` is 0, `leave` is -1, `force` is -2.
pub data Code : Type 0 where
  proceed leave force : Code

pub record Done : Type 0 where
  pub code : Code
  pub actions : List ClientAction
  pub events : List ReadEvent

-- What the dialogs of tinyfiledialogs return, and the memory that `malloc` returns.
pub record World : Type 0 where
  pub dialog : Option Bytes
  pub memory : Bytes

-- The text before the next NUL, and what follows it.
unfoldable pub cut_nul : Bytes → Result (Bytes × Bytes)
cut_nul [] = fault out_of_bounds
cut_nul (a ∷ r) =
    let rest = cut_nul r in if a == 0 then ok ([], r) else (rest >>= λ p. ok (a ∷ p.0, p.1))
