-- ===== src/Interact/Goes.antt =====
-- Runs of `interact_run` of src/repl.c over many turns, in one step for all of them.
use termtunnel.Base.{
  List, Result, Bytes, ◌+◌, Bool, ◌≡◌, All, ◌>>=◌, ◌++◌, ◌∷◌, ok, fault, [], ◌<◌, ap, ◌^◌, sym,
  arith, append-nil, length, fun_ext, append_assoc, ◌∙◌, refl, map, >>=_ok, false, true,
}
use termtunnel.Interact.{
  Turn, interact_run, Client, Keys, interact_income, Written, ReadEvent, Interaction, stdout_part,
  interact_keys, server_part, running, typed, ready, none_ready, read_failed, select_interrupted,
  select_failed,
}
use termtunnel.Interact.Turns.{
  Output, pings, typed_packets, after_all, keys_typed, texts, IsTurn, text, pipe_turns, typed_in,
  after_one, OutputFits, ping, server_part-append, stdout_part-append, output_packet, keys_sent,
  interact_income-Takes,
}
use termtunnel.Repl.Recv.{stream, IsRead}
use termtunnel.Repl.{ReadEvent}
use termtunnel.Tunnel.Up.{text}
use termtunnel.Packet.Stream.{encode_all, encode}

-- Written in front of the rest.
abbrev pub put : List Written → Result Interaction → Result Interaction
put xs m = m >>= λ r. ok (record r { actions = xs ++ r.actions })

-- A run of `interact_run` over the turns `ts`, and then over others, with these packets taken in.
pub record Goes (c : Client) (ts us : List Turn) (os : List Output) (evs : List ReadEvent)
    (rest : Bytes) : Type 0 where
  pub actions : List Written
  pub more : List ReadEvent
  pub ran : interact_run c (ts ++ us) evs ≡ put actions (interact_run (after_all c os) us more)
  pub sent : server_part actions ≡ typed_packets (typed_in ts)
  pub shown : stdout_part actions ≡ texts os
  pub left : stream more ≡ rest
  pub good : All IsRead more

-- One turn, with what it writes in front of the others.
one_turn :
    (k : Keys) (ks : List Written) (c c1 : Client) (out : List Written) (p : Bool)
    (evs more : List ReadEvent) (ts : List Turn)
    → interact_keys k ≡ ok ks
    → interact_income c p evs ≡ ok (running, c1, out, more)
    → interact_run c (ready k p ∷ ts) evs ≡ put (ks ++ out) (interact_run c1 ts more)
unfolding interact_run
one_turn k ks c c1 out p evs more ts e f =
    rw (e, f)
      (ap (λ t. interact_run c1 ts more >>= t)
        (fun_ext
          (λ r. ap (λ l. ok (record r { actions = l })) (sym (append_assoc ks out r.actions)))))

prefixed : (m : Result Interaction) (xs ys : List Written) → put xs (put ys m) ≡ put (xs ++ ys) m
prefixed (fault e) xs ys = refl
prefixed (ok r) xs ys = ap (λ l. ok (record r { actions = l })) (sym (append_assoc xs ys r.actions))

typed_first :
    (k : Keys) (bs : List Bytes)
    → (typed_packets (keys_typed k) ++ []) ++ typed_packets bs ≡ typed_packets (keys_typed k ++ bs)
typed_first none_ready bs = refl
typed_first (typed b) bs = refl
typed_first read_failed bs = refl

turn_then :
    (k : Keys) (ks : List Written) (c c1 : Client) (out : List Written) (p : Bool)
    (evs more : List ReadEvent) (ts us : List Turn) (os qs : List Output) (rest : Bytes)
    → interact_keys k ≡ ok ks
    → interact_income c p evs ≡ ok (running, c1, out, more)
    → server_part ks ≡ typed_packets (keys_typed k)
    → stdout_part ks ≡ []
    → server_part out ≡ []
    → stdout_part out ++ texts qs ≡ texts os
    → after_all c1 qs ≡ after_all c os
    → Goes c1 ts us qs more rest
    → Goes c (ready k p ∷ ts) us os evs rest
turn_then k ks c c1 out p evs more ts us os qs rest e f ks1 ks2 o1 o2 a g = record {
  actions = (ks ++ out) ++ g.actions;
  more = g.more;
  ran =
      one_turn k ks c c1 out p evs more (ts ++ us) e f
      ∙ ap (put (ks ++ out)) g.ran
      ∙ prefixed (interact_run (after_all c1 qs) us g.more) (ks ++ out) g.actions
      ∙ ap (λ d. put ((ks ++ out) ++ g.actions) (interact_run d us g.more)) a;
  sent = rw (server_part-append, server_part-append, ks1, o1, g.sent) (typed_first k (typed_in ts));
  shown = rw (stdout_part-append, stdout_part-append, ks2, g.shown) o2;
  left = g.left;
  good = g.good;
}

pings_cons : (o : Output) (os : List Output) → pings (o ∷ os) ≡ pings (o ∷ []) + pings os
pings_cons (text b) os = omega arith
pings_cons ping os = omega arith

pings_step :
    (o : Output) (os : List Output) (c : Client)
    → c.ping_count + pings (o ∷ os) < 2 ^ 63
    → (after_one c o).ping_count + pings os < 2 ^ 63
pings_step (text b) os c h = h
pings_step ping os c h = omega (arith, h)

shown_first :
    (out : List Written) (o : Output) (os : List Output)
    → stdout_part out ≡ texts (o ∷ [])
    → stdout_part out ++ texts os ≡ texts (o ∷ os)
shown_first out (text b) os h = rw (h, append-nil) refl
shown_first out ping os h = rw h refl

pub interact_run-Goes :
    (ts us : List Turn) (os : List Output) (c : Client) (evs : List ReadEvent) (rest : Bytes)
    → All IsTurn ts
    → pipe_turns ts ≡ length os
    → All OutputFits os
    → c.ping_count + pings os < 2 ^ 63
    → All IsRead evs
    → stream evs ≡ encode_all (map output_packet os) ++ rest
    → Goes c ts us os evs rest
unfolding interact_run interact_income
interact_run-Goes [] us [] c evs rest h n f l g e = record {
  actions = [];
  more = evs;
  ran = sym (>>=_ok (interact_run c us evs));
  sent = refl;
  shown = refl;
  left = e;
  good = g;
}
interact_run-Goes [] us (o ∷ os) c evs rest h n f l g e = absurd (omega (arith, n))
interact_run-Goes (select_interrupted ∷ ts) us os c evs rest h n f l g e =
    let r = interact_run-Goes ts us os c evs rest h.1 n f l g e in
    record {
      actions = r.actions;
      more = r.more;
      ran = r.ran;
      sent = r.sent;
      shown = r.shown;
      left = r.left;
      good = r.good;
    }
interact_run-Goes (select_failed ∷ ts) us os c evs rest h n f l g e = absurd h.0
interact_run-Goes (ready k false ∷ ts) us os c evs rest h n f l g e =
    let (ks, ek, ks1, ks2) = keys_sent k h.0 in
    turn_then k ks c c [] false evs evs ts us os os rest ek refl ks1 ks2 refl refl refl
      (interact_run-Goes ts us os c evs rest h.1 n f l g e)
interact_run-Goes (ready k true ∷ ts) us [] c evs rest h n f l g e = absurd (omega (arith, n))
interact_run-Goes (ready k true ∷ ts) us (o ∷ os) c evs rest h n f l g e =
    let (ks, ek, ks1, ks2) = keys_sent k h.0 in
    let t =
      interact_income-Takes c o evs (encode_all (map output_packet os) ++ rest) f.0
        (omega (arith, pings_cons o os, l)) g
        (e ∙ append_assoc (encode (output_packet o)) (encode_all (map output_packet os)) rest) in
    turn_then k ks c (after_one c o) t.out true evs t.more ts us (o ∷ os) os rest ek t.ran ks1 ks2
      t.sent (shown_first t.out o os t.shown) refl
      (interact_run-Goes ts us os (after_one c o) t.more rest h.1 (omega (arith, n)) f.1
        (pings_step o os c l) t.good t.left)
