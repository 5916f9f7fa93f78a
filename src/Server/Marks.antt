-- ===== src/Server/Marks.antt =====
-- The frames of the machine's output, each ended by a `!`, and the loop of `common_read_tty` of
-- src/pipe.c that takes them off.
use termtunnel.Base.{
  ℕ, Bytes, List, ◌∷◌, All, ◌≡◌, arith, [], ◌≢◌, if◌then◌else◌, ◌++◌, append-nil, append_assoc,
  length, ◌==◌, ◌≤◌, refl, ap, inl, eq_or_ne, ap₂, inr,
}
use termtunnel.Fsm.Pop.{NoMark}

-- The frames behind the unfinished text `acc`, and the unfinished text at the end.
unfoldable pub marks : Bytes → Bytes → List Bytes × Bytes
marks acc [] = ([], acc)
marks acc (c ∷ cs) =
    let (fs, end) = marks (if c == b'!' then [] else acc ++ c ∷ []) cs in
    (if c == b'!' then acc ∷ fs else fs, end)

abbrev pub marked : List Bytes → Bytes
marked [] = []
marked (f ∷ fs) = f ++ b'!' ∷ marked fs

pub marks-NoMark : (acc xs : Bytes) → NoMark xs → marks acc xs ≡ ([], acc ++ xs)
unfolding marks
marks-NoMark acc [] h = rw append-nil
marks-NoMark acc (c ∷ cs) h =
    ground (arith, marks-NoMark (acc ++ c ∷ []) cs h.1, append_assoc acc (c ∷ []) cs)

pub marks_frame :
    (acc f xs : Bytes)
    → NoMark f
    → marks acc (f ++ b'!' ∷ xs) ≡ ((acc ++ f) ∷ (marks [] xs).0, (marks [] xs).1)
unfolding marks
marks_frame acc [] xs h = rw append-nil
marks_frame acc (c ∷ f) xs h =
    ground (arith, marks_frame (acc ++ c ∷ []) f xs h.1, append_assoc acc (c ∷ []) f)

pub marks-marked :
    (fs : List Bytes) (xs : Bytes)
    → All NoMark fs
    → marks [] (marked fs ++ xs) ≡ (fs ++ (marks [] xs).0, (marks [] xs).1)
marks-marked [] xs h = refl
marks-marked (f ∷ fs) xs h = rw (
  append_assoc f (b'!' ∷ marked fs) xs,
  marks_frame [] f (marked fs ++ xs) h.0,
  marks-marked fs xs h.1,
)

-- Every output is its frames and an unfinished text.
pub record Splits (out : Bytes) : Type 0 where
  pub frames : List Bytes
  pub rest : Bytes
  pub whole : out ≡ marked frames ++ rest
  pub frames_clean : All NoMark frames
  pub rest_clean : NoMark rest
  pub frames_few : length frames ≤ length out

Splits-cons : (c : ℕ) (out : Bytes) → Splits out → Splits (c ∷ out)
Splits-cons c out d = elim (eq_or_ne c b'!') [
  | inl e ↦ record {
    frames = [] ∷ d.frames;
    rest = d.rest;
    whole = ap₂ ◌∷◌ e d.whole;
    frames_clean = (tt, d.frames_clean);
    rest_clean = d.rest_clean;
    frames_few = omega (arith, d.frames_few);
  }
  | inr e ↦ put e d.frames d.whole d.frames_clean d.frames_few
]
  where
    put :
        c ≢ b'!'
        → (fs : List Bytes) → out ≡ marked fs ++ d.rest
        → All NoMark fs
        → length fs ≤ length out
        → Splits (c ∷ out)
    put other [] w k n = record {
      frames = [];
      rest = c ∷ d.rest;
      whole = ap (◌∷◌ c) w;
      frames_clean = tt;
      rest_clean = (other, d.rest_clean);
      frames_few = omega arith;
    }
    put other (f ∷ fs) w k n = record {
      frames = (c ∷ f) ∷ fs;
      rest = d.rest;
      whole = ap (◌∷◌ c) w;
      frames_clean = ((other, k.0), k.1);
      rest_clean = d.rest_clean;
      frames_few = omega (arith, n);
    }

pub splits : (out : Bytes) → Splits out
splits [] = record {
  frames = [];
  rest = [];
  whole = refl;
  frames_clean = tt;
  rest_clean = tt;
  frames_few = omega arith;
}
splits (c ∷ out) = Splits-cons c out (splits out)
