-- ===== src/Repl/Commands.antt =====
-- The commands of src/repl.c, their table, and `repl_execve`.
use termtunnel.Base.{
  ℕ, Bytes, List, ◌∷◌, Result, codes, Option, Bool, if◌then◌else◌, leb, ok, length, [], true, none,
  ◌==◌, bytes_eq, false, ◌&&◌, ◌++◌, ◌>>=◌, ltb, some, ◌*◌, fault, ◌+◌, ◌^◌, int_overflow,
  out_of_bounds, ◌-◌, ◌%◌, take, drop,
}
use termtunnel.Repl.{
  World, Notice, Received, recv_data, Code, ReadEvent, cut_nul, Done, proceed, isspace, reply_text,
  path_too_long, path_not_exist, help, say, force, not_found, reply_type, download_usage, leave,
  uploads, downloads, invalid_forward_args, send, usage,
}
use termtunnel.Command
use termtunnel.Intent.{
  path_max, forward_static_port_map_listen_on_agent, new_file_exchange_intent,
  forward_static_port_map, trans_mode_send_file, trans_mode_recv_file, new_port_forward_intent,
  fill_field,
}

abbrev tell : Notice → List ReadEvent → Result Done
tell n evs = ok (record { code = proceed; actions = say n ∷ []; events = evs })

-- The digits of a number, behind what has been read.
unfoldable pub digits : ℕ → Bytes → ℕ
digits n [] = n
digits n (c ∷ cs) = if leb b'0' c && leb c b'9' then digits (10 * n + (c - b'0')) cs else n

-- `atoi`, of which the callers keep the low 16 bits: spaces, a sign and digits. A value out of the
-- range of `int` is undefined.
unfoldable pub atoi16 : Bytes → Result ℕ
unfolding digits
atoi16 [] = ok 0
atoi16 (c ∷ cs) =
    let rest = atoi16 cs in
    if isspace c
    then rest
    else if c == b'-'
    then (if ltb (2 ^ 31) (digits 0 cs)
        then fault int_overflow
        else ok ((65536 - digits 0 cs % 65536) % 65536))
    else (let n = digits 0 (if c == b'+' then cs else c ∷ cs) in
        if leb (2 ^ 31) n then fault int_overflow else ok (n % 65536))

-- What `portforward_func` prints of the reply: `%s` reads up to a NUL, of a NULL nothing.
abbrev reply_notice : Received → Result Notice
reply_notice r =
    if r.type == Command.return
    then elim r.buf [ none ↦ ok (reply_text []) | some b ↦ cut_nul b >>= λ p. ok (reply_text p.0) ]
    else ok (reply_type r.type)

-- Behind `atoi`.
unfoldable pub forward_ports : World → Bytes → Bytes → ℕ → Bytes → ℕ → List ReadEvent → Result Done
unfolding recv_data cut_nul
forward_ports w name src_host src_port dst_host dst_port evs =
    let forward_type =
      if bytes_eq name (codes "remote_listen")
      then forward_static_port_map_listen_on_agent
      else forward_static_port_map in
    elim (new_port_forward_intent w.memory forward_type src_host src_port dst_host dst_port) [
      | none ↦ tell invalid_forward_args evs
      | some a ↦ recv_data evs >>= λ r. reply_notice r.0 >>= λ n. ok (record {
        code = proceed;
        actions = send Command.port_forward a ∷ say n ∷ [];
        events = r.1;
      })
    ]

unfoldable pub portforward_func : World → List Bytes → List ReadEvent → Result Done
unfolding atoi16 forward_ports
portforward_func w (name ∷ src_host ∷ src ∷ dst_host ∷ dst ∷ []) evs = do
  src_port ← atoi16 src
  dst_port ← atoi16 dst
  forward_ports w name src_host src_port dst_host dst_port evs
portforward_func w (name ∷ words) evs = tell (usage name) evs
portforward_func w [] evs = fault out_of_bounds

-- POSIX `basename`: the last name before this one, and the part of this one that has been read.
unfoldable pub basename_loop : Bytes → Bytes → Bytes → Bytes
basename_loop last name [] = if length name == 0 then last else name
basename_loop last name (c ∷ cs) =
    if c == b'/'
    then basename_loop (if length name == 0 then last else name) [] cs
    else basename_loop last (name ++ c ∷ []) cs

unfoldable pub basename : Bytes → Bytes
unfolding basename_loop
basename [] = b'.' ∷ []
basename (c ∷ cs) =
    let name = basename_loop [] [] (c ∷ cs) in if length name == 0 then b'/' ∷ [] else name

-- Behind the choice of the file.
abbrev upload_url : World → Bytes → List ReadEvent → Result Done
upload_url w url evs =
    if leb path_max (length url)
    then tell path_too_long evs
    else elim (new_file_exchange_intent w.memory url (basename url) trans_mode_send_file) [
      | none ↦ tell (uploads url) evs
      | some a ↦ ok (record {
        code = proceed;
        actions = say (uploads url) ∷ send Command.file_exchange a ∷ [];
        events = evs;
      })
    ]

unfoldable pub upload_func : World → List Bytes → List ReadEvent → Result Done
unfolding basename
upload_func w (name ∷ []) evs = elim w.dialog [
  | none ↦ tell path_not_exist evs
  | some url ↦ upload_url w url evs
]
upload_func w (name ∷ url ∷ more) evs = upload_url w url evs
upload_func w [] evs = fault out_of_bounds

-- The intent is filled in with the folder, and then with the folder and the name of the file.
abbrev download_to : World → Bytes → Bytes → List ReadEvent → Result Done
download_to w src url evs =
    let dst = url ++ b'/' ∷ basename src in
    elim (new_file_exchange_intent w.memory src url trans_mode_recv_file) [
      | none ↦ tell (downloads src url) evs
      | some a ↦ elim (fill_field (take path_max (drop path_max a)) dst) [
        | none ↦ ok (record {
          code = proceed;
          actions = say (downloads src url) ∷ say path_too_long ∷ [];
          events = evs;
        })
        | some b ↦ ok (record {
          code = proceed;
          actions =
              say (downloads src url)
              ∷ send Command.file_exchange (take path_max a ++ (b ++ drop (path_max + path_max) a))
              ∷ [];
          events = evs;
        })
      ]
    ]

unfoldable pub download_func : World → List Bytes → List ReadEvent → Result Done
unfolding basename
download_func w (name ∷ src ∷ []) evs = elim w.dialog [
  | none ↦ tell path_not_exist evs
  | some url ↦
      if leb path_max (length url) then tell path_too_long evs else download_to w src url evs
]
download_func w words evs = tell download_usage evs

abbrev return_code : Code → List ReadEvent → Result Done
return_code c evs = ok (record { code = c; actions = []; events = evs })

unfoldable pub exit_func : World → List Bytes → List ReadEvent → Result Done
exit_func w (name ∷ flag ∷ []) evs =
    return_code (if bytes_eq flag (codes "-f") then force else leave) evs
exit_func w words evs = return_code leave evs

unfoldable pub help_func : World → List Bytes → List ReadEvent → Result Done
help_func w words evs = tell help evs

-- A row of `action_table`: the name, the function, and whether `FLAG_ONESHOT` is set.
pub record ActionFinder : Type 0 where
  pub funcname : Bytes
  pub func : World → List Bytes → List ReadEvent → Result Done
  pub oneshot : Bool

abbrev row : Bytes → (World → List Bytes → List ReadEvent → Result Done) → Bool → ActionFinder
row n f o = record { funcname = n; func = f; oneshot = o }

abbrev pub action_table : List ActionFinder
action_table =
    row (codes "local_listen") portforward_func true
    ∷ row (codes "remote_listen") portforward_func false
    ∷ row (codes "upload") upload_func true
    ∷ row (codes "rz") upload_func true
    ∷ row (codes "download") download_func true
    ∷ row (codes "sz") download_func true
    ∷ row (codes "help") help_func true
    ∷ row (codes "exit") exit_func false
    ∷ []

-- The first row of this name.
unfoldable pub find_action : List ActionFinder → Bytes → Option ActionFinder
find_action [] name = none
find_action (r ∷ rs) name = if bytes_eq name r.funcname then some r else find_action rs name

unfoldable pub get_command_flags : Bytes → Bool
unfolding find_action
get_command_flags name = elim (find_action action_table name) [ none ↦ false | some r ↦ r.oneshot ]

unfoldable pub repl_execve : World → List Bytes → List ReadEvent → Result Done
unfolding find_action portforward_func upload_func download_func help_func exit_func
repl_execve w [] evs = return_code proceed evs
repl_execve w (name ∷ words) evs = elim (find_action action_table name) [
  | none ↦ tell (not_found name) evs
  | some r ↦ r.func w (name ∷ words) evs
]
