-- ===== src/Server/Sizes.antt =====
-- The int fields of the machine over all reads of `common_read_tty` of src/pipe.c.
use termtunnel.Base.{
  ℕ, Bytes, List, Option, Result, length, ◌+◌, ◌≤◌, ◌≡◌, ◌∷◌, [], ok, fault, some, none, zero, suc,
  arith, flatten, length-append, length-drop, ◌>>=◌, All, ◌^◌, drop, take, inl, inr, guard, ◌++◌,
  ◌*◌, leb, aborted, ◌>>◌, Bool-cases,
}
use termtunnel.Base64.{Base64}
use termtunnel.Fsm.{FsmContext, fsm_pop_output, find_mark}
use termtunnel.Fsm.Valid.{Holds}
use termtunnel.Fsm.Run.{IsIdle}
use termtunnel.Fsm.Feed.{feed, feed-scan}
use termtunnel.Fsm.Pop.{NoMark}
use termtunnel.Fsm.Stream.{Scanner, scan, scanner_of}
use termtunnel.Fsm.Sizes.{IsSized, InRange, IsSized-InRange, feed-IsSized, load}
use termtunnel.Server.{
  Server, TtyReply, pop_loop, common_read_tty, tty_reads, server_handle_green_packet, virtual_mtu,
}
use termtunnel.Server.Marks.{marks}
use termtunnel.Server.Tty.{IsShort}
use termtunnel.Server.Relay.{Relayed, tty_reads_relay}

-- A machine between two reads.
abbrev Between : ℕ → FsmContext → Type 0
Between n c = IsIdle c × IsSized n c

drop-Between :
    (n k : ℕ) (c : FsmContext) → Between n c → Between n (record c { output = drop k c.output })
drop-Between n k c h =
    let l = length-drop k c.output in
    (
      record {
        valid = record {
          processed_le = h.0.valid.processed_le;
          processed_in = h.0.valid.processed_in;
          offset_le = h.0.valid.offset_le;
          input_fits = h.0.valid.input_fits;
          output_fits = omega (arith, l, h.0.valid.output_fits);
          output_room = h.0.valid.output_room;
        };
        read = h.0.read;
      },
      record {
        input_len = h.1.input_len;
        output_len = omega (arith, l, h.1.output_len);
        input_room = h.1.input_room;
        output_room = h.1.output_room;
        calls = h.1.calls;
        cur_low = h.1.cur_low;
        argc_le = h.1.argc_le;
      },
    )

pop-Between :
    (n m : ℕ) (c : FsmContext)
    → Between n c
    → Holds {A = Bytes × FsmContext} (λ p. Between n p.1) (fsm_pop_output c m)
unfolding fsm_pop_output
pop-Between n m c h = go (find_mark 0 c.output)
  where
    go :
        (o : Option ℕ)
        → Holds {A = Bytes × FsmContext}
            (λ p. Between n p.1)
            (elim o [
              | none ↦ ok ([], c)
              | some last ↦
                  guard (leb (last + 1 + 1) m) aborted
                  >> ok (take (last + 1) c.output, record c { output = drop (last + 1) c.output })
            ])
    go none = h
    go (some last) = elim (Bool-cases (leb (last + 1 + 1) m)) [
      | inl e ↦ rw (Holds, e) (drop-Between n (last + 1) c h)
      | inr e ↦ rw (Holds, e) tt
    ]

-- What follows a step of the reads.
then_Holds {ℓ κ} :
    {A : Type ℓ} {B : Type κ} (P : A → Type 0) (Q : B → Type 0) (r : Result A) (next : A → Result B)
    → Holds P r
    → ((a : A) → P a → Holds Q (next a))
    → Holds Q (r >>= next)
then_Holds P Q (ok a) next h k = k a h
then_Holds P Q (fault x) next h k = tt

popped-Between :
    (fuel n : ℕ) (codec : Base64) (s : Server) (b : Bytes) (c : FsmContext)
    → Between n c
    → ((v : Server) → Holds {A = TtyReply} (λ r. Between n r.fsm) (pop_loop fuel codec c v))
    → Holds {A = TtyReply}
        (λ r. Between n r.fsm)
        (elim b [
          | [] ↦ ok (record { fsm = c; server = s; actions = [] })
          | a ∷ r ↦
              let done = server_handle_green_packet codec s (a ∷ r) in
              pop_loop fuel codec c done.0 >>= λ t. ok (record t { actions = done.1 ++ t.actions })
        ])
popped-Between fuel n codec s [] c h more = h
popped-Between fuel n codec s (a ∷ r) c h more =
    let done = server_handle_green_packet codec s (a ∷ r) in
    then_Holds (λ t. Between n t.fsm) (λ t. Between n t.fsm) (pop_loop fuel codec c done.0)
      (λ t. ok (record t { actions = done.1 ++ t.actions })) (more done.0) (λ t k. k)

pop_loop-Between :
    (fuel n : ℕ) (codec : Base64) (c : FsmContext) (s : Server)
    → Between n c
    → Holds {A = TtyReply} (λ r. Between n r.fsm) (pop_loop fuel codec c s)
unfolding pop_loop
pop_loop-Between zero n codec c s h = tt
pop_loop-Between (suc fuel) n codec c s h =
    then_Holds {A = Bytes × FsmContext} (λ p. Between n p.1) (λ r. Between n r.fsm)
      (fsm_pop_output c (5 * virtual_mtu)) _ (pop-Between n (5 * virtual_mtu) c h)
      (λ p k. popped-Between fuel n codec s p.0 p.1 k (λ v. pop_loop-Between fuel n codec p.1 v k))

more-Between : (n k : ℕ) (c : FsmContext) → Between n c → Between (n + k) c
more-Between n k c h = (
  h.0,
  record {
    input_len = omega (arith, h.1.input_len);
    output_len = omega (arith, h.1.output_len);
    input_room = omega (arith, h.1.input_room);
    output_room = omega (arith, h.1.output_room);
    calls = omega (arith, h.1.calls);
    cur_low = omega (arith, h.1.cur_low);
    argc_le = h.1.argc_le;
  },
)

both_Hold {ℓ} :
    {A : Type ℓ} (P Q : A → Type 0) (r : Result A)
    → Holds P r
    → Holds Q r
    → Holds (λ a. P a × Q a) r
both_Hold P Q (ok a) h k = (h, k)
both_Hold P Q (fault x) h k = tt

common_read_tty-Between :
    (n : ℕ) (codec : Base64) (c : FsmContext) (s : Server) (x : Bytes)
    → Between n c
    → Holds {A = TtyReply} (λ r. Between (n + (length x + 1)) r.fsm) (common_read_tty codec c s x)
unfolding common_read_tty
common_read_tty-Between n codec c s [] h = more-Between n 1 c h
common_read_tty-Between n codec c s (a ∷ x) h =
    let m = n + (length (a ∷ x) + 1) in
    then_Holds (Between m) (λ r. Between m r.fsm) (feed c (a ∷ x)) _
      (both_Hold IsIdle (IsSized m) (feed c (a ∷ x)) (feed-scan c (a ∷ x) h.0).1
        (feed-IsSized n c (a ∷ x) h.0 h.1))
      (λ d k.
        then_Holds {A = TtyReply} (λ r. Between m r.fsm) (λ r. Between m r.fsm)
          (pop_loop (length d.output + 1) codec d s) _
          (pop_loop-Between (length d.output + 1) m codec d s k) (λ t q. q))

tty_reads-fits :
    (n : ℕ) (codec : Base64) (xs : List Bytes) (c : FsmContext) (s : Server)
    → Between n c
    → n + load xs ≤ 2 ^ 29
    → Holds {A = TtyReply} (λ r. InRange r.fsm) (tty_reads codec c s xs)
unfolding tty_reads
tty_reads-fits n codec [] c s h l = IsSized-InRange n c h.0.valid h.1 (omega arith)
tty_reads-fits n codec (x ∷ xs) c s h l =
    let m = n + (length x + 1) in
    let size = length-append x (flatten xs) in
    then_Holds {A = TtyReply} (λ r. Between m r.fsm) (λ r. InRange r.fsm)
      (common_read_tty codec c s x) _ (common_read_tty-Between n codec c s x h)
      (λ r k.
        then_Holds (λ t. InRange t.fsm) (λ t. InRange t.fsm) (tty_reads codec r.fsm r.server xs) _
          (tty_reads-fits m codec xs r.fsm r.server k (omega (arith, size))) (λ t q. q))

-- From a machine that has read its input and holds no whole frame, whose sizes come from `n` bytes
-- and calls, and with at most 2^29 of them in all (the reads to come count with their bytes and one
-- each): if the scanner reads the bytes of all reads without a fault, and the frames in what it keeps
-- are short enough for the buffer, then the reads return, every frame has been handled in order by
-- the server, its network stack got just what these frames carry, the unfinished text stays in the
-- machine, and behind the reads every int field of the machine is in the range of an int.
pub tty_reads-InRange :
    (n : ℕ) (codec : Base64) (xs : List Bytes) (fsm : FsmContext) (s : Server) (t : Scanner)
    → IsIdle fsm
    → IsSized n fsm
    → n + load xs ≤ 2 ^ 29
    → NoMark fsm.output
    → scan (scanner_of fsm) (flatten xs) ≡ ok t
    → All IsShort (marks [] t.out).0
    → (d : Relayed codec s t (tty_reads codec fsm s xs)) × InRange d.reply.fsm
tty_reads-InRange n codec xs fsm s t h w l clear e short =
    let d = tty_reads_relay codec xs fsm s t h clear e short in
    (d, rw d.ran at (tty_reads-fits n codec xs fsm s (h, w) l))
