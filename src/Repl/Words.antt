-- ===== src/Repl/Words.antt =====
-- `split` of src/repl.c reads back a command line that was printed word by word.
use termtunnel.Base.{
  ℕ, Bytes, ◌≢◌, List, All, flatten, [], ◌∷◌, ◌≡◌, map, suc, ◌++◌, false, append-nil, take, arith,
  zero, ◌∙◌, append_assoc, refl, ap, All-append, ◌==◌,
}
use termtunnel.Repl.{split, split_loop, dull, in_word, in_string, isspace}
use termtunnel.Intent.{until_nul}

-- A word as it is typed: bare, or between quotes.
pub data Word : Type 0 where
  bare : ℕ → Bytes → Word
  quoted : Bytes → Word

abbrev pub text : Word → Bytes
text (bare c cs) = c ∷ cs
text (quoted cs) = cs

abbrev pub typed : Word → Bytes
typed (bare c cs) = c ∷ (cs ++ b' ' ∷ [])
typed (quoted cs) = b'"' ∷ (cs ++ b'"' ∷ b' ' ∷ [])

-- A bare word does not begin with a quote and holds no space, a quoted one no quote; neither holds
-- a NUL.
abbrev pub IsTypable : Word → Type 0
IsTypable (bare c cs) = (c ≢ b'"') × All (λ a. (isspace a ≡ false) × (a ≢ 0)) (c ∷ cs)
IsTypable (quoted cs) = All (λ a. (a ≢ b'"') × (a ≢ 0)) cs

abbrev pub line_of : List Word → Bytes
line_of ws = flatten (map typed ws)

==-false : {a b : ℕ} → a ≢ b → (a == b) ≡ false
==-false h = ground arith

split_bare :
    (room : ℕ) (word cs rest : Bytes)
    → All (λ a. (isspace a ≡ false) × (a ≢ 0)) cs
    → split_loop (suc room) in_word word (cs ++ b' ' ∷ rest)
      ≡ (word ++ cs) ∷ split_loop room dull [] rest
unfolding split_loop
split_bare room word [] rest h = rw append-nil refl
split_bare room word (c ∷ cs) rest h = rw (h.0.0) (
    split_bare room (word ++ c ∷ []) cs rest h.1
    ∙ ap (λ l. l ∷ split_loop room dull [] rest) (append_assoc word (c ∷ []) cs))

split_quoted :
    (room : ℕ) (word cs rest : Bytes)
    → All (λ a. (a ≢ b'"') × (a ≢ 0)) cs
    → split_loop (suc room) in_string word (cs ++ b'"' ∷ b' ' ∷ rest)
      ≡ (word ++ cs) ∷ split_loop room dull [] (b' ' ∷ rest)
unfolding split_loop
split_quoted room word [] rest h = rw append-nil refl
split_quoted room word (c ∷ cs) rest h =
    ground (arith, split_quoted room (word ++ c ∷ []) cs rest h.1, append_assoc word (c ∷ []) cs)

split_space :
    (room : ℕ) (rest : Bytes) → split_loop room dull [] (b' ' ∷ rest) ≡ split_loop room dull [] rest
unfolding split_loop
split_space zero rest = refl
split_space (suc room) rest = refl

split_line :
    (ws : List Word) (room : ℕ)
    → All IsTypable ws
    → split_loop room dull [] (line_of ws) ≡ take room (map text ws)
unfolding split_loop
split_line [] zero h = refl
split_line [] (suc room) h = refl
split_line (w ∷ ws) zero h = refl
split_line (bare c cs ∷ ws) (suc room) h =
    let first = split_bare room (c ∷ []) cs (line_of ws) h.0.1.1 in
    let line = append_assoc cs (b' ' ∷ []) (line_of ws) in
    let rest = split_line ws room h.1 in rw (h.0.1.0.0, ==-false h.0.0, line, first, rest) refl
split_line (quoted cs ∷ ws) (suc room) h =
    let first = split_quoted room [] cs (line_of ws) h.0 in
    let line = append_assoc cs (b'"' ∷ b' ' ∷ []) (line_of ws) in
    let rest = split_line ws room h.1 in rw (line, first, split_space room (line_of ws), rest) refl

until_nul-NoNul : (xs : Bytes) → All (λ a. a ≢ 0) xs → until_nul xs ≡ xs
unfolding until_nul
until_nul-NoNul [] h = refl
until_nul-NoNul (x ∷ xs) h = ground (arith, until_nul-NoNul xs h.1)

NoNul-append :
    (xs ys : Bytes) → All (λ a. a ≢ 0) xs → All (λ a. a ≢ 0) ys → All (λ a. a ≢ 0) (xs ++ ys)
NoNul-append = All-append (λ a. a ≢ 0)

clean-bare : (cs : Bytes) → All (λ a. (isspace a ≡ false) × (a ≢ 0)) cs → All (λ a. a ≢ 0) cs
clean-bare [] h = tt
clean-bare (c ∷ cs) h = (h.0.1, clean-bare cs h.1)

clean-quoted : (cs : Bytes) → All (λ a. (a ≢ b'"') × (a ≢ 0)) cs → All (λ a. a ≢ 0) cs
clean-quoted [] h = tt
clean-quoted (c ∷ cs) h = (h.0.1, clean-quoted cs h.1)

line-NoNul : (ws : List Word) → All IsTypable ws → All (λ a. a ≢ 0) (line_of ws)
line-NoNul [] h = tt
line-NoNul (bare c cs ∷ ws) h =
    NoNul-append (c ∷ (cs ++ b' ' ∷ [])) (line_of ws)
      (
        h.0.1.0.1,
        NoNul-append cs (b' ' ∷ []) (clean-bare cs h.0.1.1) ((λ e. absurd (omega arith)), tt),
      )
      (line-NoNul ws h.1)
line-NoNul (quoted cs ∷ ws) h =
    NoNul-append (b'"' ∷ (cs ++ b'"' ∷ b' ' ∷ [])) (line_of ws)
      (
        (λ e. absurd (omega arith)),
        NoNul-append cs (b'"' ∷ b' ' ∷ []) (clean-quoted cs h.0)
            ((λ e. absurd (omega arith)), ((λ e. absurd (omega arith)), tt)),
      )
      (line-NoNul ws h.1)

-- `split` finds the words of a line in which each is followed by a space and typed bare (it is not
-- empty, does not begin with a quote and holds no space) or between quotes (it holds no quote),
-- none with a NUL: as many of them as `argv` has places for.
pub split_typed :
    (ws : List Word) (argv_size : ℕ)
    → All IsTypable ws
    → split (line_of ws) argv_size ≡ take argv_size (map text ws)
unfolding split
split_typed ws argv_size h =
    rw (until_nul-NoNul (line_of ws) (line-NoNul ws h)) (split_line ws argv_size h)
