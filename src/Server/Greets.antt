-- ===== src/Server/Greets.antt =====
-- The server of src/pipe.c when the agent starts: what `common_read_tty` does with the frame that the
-- agent shows then.
use termtunnel.Base.{
  ℕ, Bool, bytes_eq, Bytes, ◌∷◌, codes, ◌≡◌, [], true, ◌++◌, false, refl, List, if◌then◌else◌,
  Result, ok, flatten, ap, ◌∙◌, append-nil, arith, sym, subst, append_assoc, >>=-eq-ok,
}
use termtunnel.Server.{
  Server, common_read_tty, handle_all, TtyReply, greet, server_handle_green_packet,
  libuv_add_vnet_notify, vnet_init, FsmContext, le_bytes, ServerAction, tty_reads,
}
use termtunnel.Base64.{Base64}
use termtunnel.Command
use termtunnel.Server.Marks.{marks, splits, marked, marks-NoMark, marks-marked}
use termtunnel.Server.Reads.{common_read_tty_handles, marks_split, copy_of, ok_inj}
use termtunnel.Server.Quiet.{
  Blocks, cli_part, tty_reads_quiet, copies, Blocks-append, Blocks-nil, copy_of-Blocks,
  cli_part-append, copies_none, copy_none, common_read_tty_quiet,
}
use termtunnel.Fsm.Stream.{Scanner, scan, scanner_of, scan-append}
use termtunnel.Packet.{Packet}
use termtunnel.Fsm.{FsmContext}
use termtunnel.Words.{le_bytes}
use termtunnel.Fsm.Run.{IsIdle}
use termtunnel.Server.Tty.{IsShort}
use termtunnel.Fsm.Pop.{NoMark}
use termtunnel.Server.Relay.{empty_read, scan_rest}

-- What `agent` of src/agent.c shows when it is ready, without its `!`.
abbrev pub hello : Bool → Bytes
hello true = codes "ONESHOT"
hello false = codes "MAGIC"

abbrev pub enter_packet : Bool → Packet
enter_packet oneshot = record {
  type = Command.enter_repl;
  payload = if oneshot then le_bytes 8 1 else [];
}

greet_packets :
    (s : Server) (flag : Bytes)
    → ((greet s flag).0.sees_agent ≡ true)
      × (cli_part (greet s flag).1 ≡ record { type = Command.enter_repl; payload = flag } ∷ [])
unfolding libuv_add_vnet_notify vnet_init
greet_packets s flag = go s.added s.init_done refl refl
  where
    go :
        (a i : Bool)
        → s.added ≡ a
        → s.init_done ≡ i
        → ((greet s flag).0.sees_agent ≡ true)
          × (cli_part (greet s flag).1 ≡ record { type = Command.enter_repl; payload = flag } ∷ [])
    go true true e f = rw (e, f) (refl, refl)
    go true false e f = rw (e, f) (refl, refl)
    go false true e f = rw (e, f) (refl, refl)
    go false false e f = rw (e, f) (refl, refl)

-- The frame is handled by its greeting.
hello_greets :
    (codec : Base64) (s : Server) (oneshot : Bool)
    → handle_all codec s (hello oneshot ∷ []) ≡ (
      (greet s (enter_packet oneshot).payload).0,
      (greet s (enter_packet oneshot).payload).1 ++ [],
    )
unfolding handle_all server_handle_green_packet bytes_eq
hello_greets codec s true = refl
hello_greets codec s false = refl

-- Where the frame ends, by the scan of the bytes before and with this read: there is no frame
-- before, and one with it.
abbrev pub EndsIn : Scanner → Bool → List Bytes → Bytes → Type 0
EndsIn u oneshot before greeting =
    (t1 t2 : Scanner) × (scan u (flatten before) ≡ ok t1)
    × NoMark t1.out
    × (scan u (flatten before ++ greeting) ≡ ok t2)
    × ((marks [] t2.out).0 ≡ hello oneshot ∷ [])

found_here :
    (u : Scanner) (oneshot : Bool) (x : Bytes) (t : Scanner) (rest : Bytes)
    → NoMark u.out
    → scan u x ≡ ok t
    → marks [] t.out ≡ (hello oneshot ∷ [], rest)
    → EndsIn u oneshot [] x
unfolding scan
found_here u oneshot x t rest n e m = (u, t, refl, n, e, ap (λ p. p.0) m)

found_behind :
    (u v : Scanner) (oneshot : Bool) (x : Bytes) (before : List Bytes) (greeting : Bytes)
    → scan u x ≡ ok v
    → EndsIn v oneshot before greeting
    → EndsIn u oneshot (x ∷ before) greeting
found_behind u v oneshot x before greeting e d =
    let (t1, t2, f1, n, f2, m) = d in
    (
      t1,
      t2,
      rw (scan-append, e) f1,
      n,
      rw (append_assoc x (flatten before) greeting, scan-append, e) f2,
      m,
    )

-- Reads with one frame, the greeting: what came before is copied for the client, and then it is told
-- to leave the terminal.
pub record GreetedReads (codec : Base64) (s : Server) (from : Scanner) (oneshot : Bool)
    (xs : List Bytes) (m : Result TtyReply) : Type 0 where
  pub reply : TtyReply
  pub ran : m ≡ ok reply
  pub sees : reply.server.sees_agent ≡ true
  pub before : List Bytes
  pub greeting : Bytes
  pub behind : List Bytes
  pub cut : xs ≡ before ++ greeting ∷ behind
  pub ends : EndsIn from oneshot before greeting
  pub copied : List ServerAction
  pub blocks : Blocks copied (flatten before)
  pub packets : cli_part reply.actions ≡ cli_part copied ++ enter_packet oneshot ∷ []

-- The read with the end of the frame.
greeting_read :
    (codec : Base64) (fsm : FsmContext) (s : Server) (oneshot : Bool) (a : ℕ) (x : Bytes)
    (t : Scanner) (r : Bytes)
    → IsIdle fsm
    → scan (scanner_of fsm) (a ∷ x) ≡ ok t
    → marks [] t.out ≡ (hello oneshot ∷ [], r)
    → IsShort (hello oneshot)
    → (reply : TtyReply) × (common_read_tty codec fsm s (a ∷ x) ≡ ok reply)
      × (reply.server.sees_agent ≡ true)
      × (cli_part reply.actions ≡ enter_packet oneshot ∷ [])
      × IsIdle reply.fsm
      × (scanner_of reply.fsm ≡ record t { out = r })
      × NoMark reply.fsm.output
greeting_read codec fsm s oneshot a x t r h e m short =
    let d = common_read_tty_handles codec fsm s a x t h e (rw m (short, tt)) in
    let (sees, told) = greet_packets s (enter_packet oneshot).payload in
    let greeted = hello_greets codec s oneshot in
    let saw : d.reply.server.sees_agent ≡ true =
      ap (λ v. v.sees_agent) d.served ∙ rw (m, greeted) sees in
    (
      d.reply,
      d.ran,
      saw,
      ap cli_part d.acts ∙ rw (m, greeted, saw, append-nil, append-nil) told,
      d.idle,
      d.scanned ∙ rw m refl,
      d.clean,
    )

marks-eq-none : (o : Bytes) → (marks [] o).0 ≡ [] → NoMark o
marks-eq-none o e =
    let d = splits o in
    let m = marks_split o d.frames d.rest d.whole d.frames_clean d.rest_clean in
    let none_there : d.frames ≡ [] = sym (ap (λ p. p.0) m) ∙ e in
    let all_rest : o ≡ d.rest = d.whole ∙ ap (λ fs. marked fs ++ d.rest) none_there in
    subst NoMark (sym all_rest) d.rest_clean

hello-IsShort : (oneshot : Bool) → IsShort (hello oneshot)
hello-IsShort true = omega arith
hello-IsShort false = omega arith

empty_cons :
    (f : Bytes) (fs gs : List Bytes) (h : Bytes)
    → f ∷ (fs ++ gs) ≡ h ∷ []
    → (f ≡ h) × (fs ≡ []) × (gs ≡ [])
empty_cons f [] [] h e = (cc, refl, refl)
empty_cons f [] (g ∷ gs) h e = cc
empty_cons f (g ∷ fs) gs h e = cc

-- The end of the frame is in this read.
greeted_now :
    (codec : Base64) (fsm : FsmContext) (s : Server) (oneshot : Bool) (a : ℕ) (x : Bytes)
    (xs : List Bytes) (t1 t2 : Scanner) (rest : Bytes)
    → IsIdle fsm
    → NoMark fsm.output
    → scan (scanner_of fsm) (a ∷ x) ≡ ok t1
    → marks [] t1.out ≡ (hello oneshot ∷ [], rest)
    → scan (record t1 { out = rest }) (flatten xs) ≡ ok t2
    → NoMark t2.out
    → GreetedReads codec s
        (scanner_of fsm)
        oneshot
        ((a ∷ x) ∷ xs)
        (tty_reads codec fsm s ((a ∷ x) ∷ xs))
unfolding tty_reads
greeted_now codec fsm s oneshot a x xs t1 t2 rest h clear e m f n =
    let (reply, ran, sees, told, idle, scanned, clean) =
      greeting_read codec fsm s oneshot a x t1 rest h e m (hello-IsShort oneshot) in
    let q = tty_reads_quiet codec xs reply.fsm reply.server t2 idle (rw scanned f) n in
    record {
      reply = record {
        fsm = q.fsm;
        server = reply.server;
        actions = reply.actions ++ copies reply.server xs;
      };
      ran = rw (ran, q.ran) refl;
      sees = sees;
      before = [];
      greeting = a ∷ x;
      behind = xs;
      cut = refl;
      ends = found_here (scanner_of fsm) oneshot (a ∷ x) t1 rest clear e m;
      copied = [];
      blocks = Blocks-nil;
      packets = rw (cli_part-append, told, copies_none reply.server xs sees) refl;
    }

-- A read without the end of a frame, in front.
greeted_later :
    (codec : Base64) (fsm : FsmContext) (s : Server) (oneshot : Bool) (x : Bytes) (xs : List Bytes)
    (next : FsmContext)
    → common_read_tty codec fsm s x ≡ ok (record { fsm = next; server = s; actions = copy_of s x })
    → scan (scanner_of fsm) x ≡ ok (scanner_of next)
    → s.sees_agent ≡ false
    → GreetedReads codec s (scanner_of next) oneshot xs (tty_reads codec next s xs)
    → GreetedReads codec s (scanner_of fsm) oneshot (x ∷ xs) (tty_reads codec fsm s (x ∷ xs))
unfolding tty_reads
greeted_later codec fsm s oneshot x xs next e step blind d = record {
  reply = record d.reply { actions = copy_of s x ++ d.reply.actions };
  ran = rw (e, d.ran) refl;
  sees = d.sees;
  before = x ∷ d.before;
  greeting = d.greeting;
  behind = d.behind;
  cut = ap (◌∷◌ x) d.cut;
  ends = found_behind (scanner_of fsm) (scanner_of next) oneshot x d.before d.greeting step d.ends;
  copied = copy_of s x ++ d.copied;
  blocks = Blocks-append (copy_of-Blocks s x blind) d.blocks;
  packets =
      rw (cli_part-append, cli_part-append, d.packets)
        (sym (append_assoc (cli_part (copy_of s x)) (cli_part d.copied) _));
}

pub tty_reads_greets :
    (codec : Base64) (xs : List Bytes) (fsm : FsmContext) (s : Server) (oneshot : Bool)
    (t : Scanner) (r : Bytes)
    → IsIdle fsm
    → NoMark fsm.output
    → s.sees_agent ≡ false
    → scan (scanner_of fsm) (flatten xs) ≡ ok t
    → marks [] t.out ≡ (hello oneshot ∷ [], r)
    → GreetedReads codec s (scanner_of fsm) oneshot xs (tty_reads codec fsm s xs)
unfolding scan
tty_reads_greets codec [] fsm s oneshot t r h n blind e m =
    let k : fsm.output ≡ t.out = ap (λ u. u.out) (ok_inj e) in
    let none_there : [] ≡ hello oneshot ∷ [] =
      ap (λ p. p.0) (sym (marks-NoMark [] fsm.output n) ∙ ap (marks []) k ∙ m) in
    cc
tty_reads_greets codec ([] ∷ xs) fsm s oneshot t r h n blind e m =
    greeted_later codec fsm s oneshot [] xs fsm (empty_read codec fsm s ∙ rw (copy_none s) refl)
      refl blind (tty_reads_greets codec xs fsm s oneshot t r h n blind e m)
tty_reads_greets codec ((a ∷ x) ∷ xs) fsm s oneshot t r h n blind e m =
    let (t1, e1, e2) =
      >>=-eq-ok (scan (scanner_of fsm) (a ∷ x)) (λ u. scan u (flatten xs))
        (sym (scan-append (scanner_of fsm) (a ∷ x) (flatten xs)) ∙ e) in
    let d = splits t1.out in
    let m1 = marks_split t1.out d.frames d.rest d.whole d.frames_clean d.rest_clean in
    let (t2, f2, g2) = scan_rest (marked d.frames) t1 d.rest (flatten xs) t d.whole e2 in
    let split : marks [] t.out ≡ (d.frames ++ (marks [] t2.out).0, (marks [] t2.out).1) =
      rw (← g2) (marks-marked d.frames t2.out d.frames_clean) in
    go (λ next i k q. tty_reads_greets codec xs next s oneshot t r i k blind q m) t1 e1 e2 d.frames
      d.rest m1 t2 f2 (ap (λ p. p.0) (sym split ∙ m))
  where
    go :
        ((next : FsmContext)
          → IsIdle next
          → NoMark next.output
          → scan (scanner_of next) (flatten xs) ≡ ok t
          → GreetedReads codec s (scanner_of next) oneshot xs (tty_reads codec next s xs))
        → (t1 : Scanner) → scan (scanner_of fsm) (a ∷ x) ≡ ok t1
        → scan t1 (flatten xs) ≡ ok t
        → (fs : List Bytes) (rest : Bytes) → marks [] t1.out ≡ (fs, rest)
        → (t2 : Scanner) → scan (record t1 { out = rest }) (flatten xs) ≡ ok t2
        → fs ++ (marks [] t2.out).0 ≡ hello oneshot ∷ []
        → GreetedReads codec s
            (scanner_of fsm)
            oneshot
            ((a ∷ x) ∷ xs)
            (tty_reads codec fsm s ((a ∷ x) ∷ xs))
    go more t1 e1 e2 [] rest m1 t2 f2 k =
        let n1 = marks-eq-none t1.out (ap (λ p. p.0) m1) in
        let (next, ran, idle, scanned) = common_read_tty_quiet codec fsm s a x t1 h e1 n1 in
        greeted_later codec fsm s oneshot (a ∷ x) xs next ran (e1 ∙ ap ok (sym scanned)) blind
          (more next idle (subst NoMark (sym (ap (λ u. u.out) scanned)) n1) (rw scanned e2))
    go more t1 e1 e2 (f ∷ fs) rest m1 t2 f2 k =
        let (k1, k2, k3) = empty_cons f fs (marks [] t2.out).0 (hello oneshot) k in
        greeted_now codec fsm s oneshot a x xs t1 t2 rest h n e1 (m1 ∙ rw (k1, k2) refl) f2
          (marks-eq-none t2.out k3)
