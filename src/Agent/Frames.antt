-- ===== src/Agent/Frames.antt =====
-- The frames of a byte stream, and `process_stdin` of src/agent.c, which finds them in its buffer.
use termtunnel.Base.{
  ℕ, Bool, Bytes, All, ◌≡◌, ◌==◌, List, ◌++◌, arith, Bool-cases, ◌||◌, if◌then◌else◌, false, [],
  length, drop, append-nil, inl, ◌+◌, refl, append_assoc, inr, drop-append_length, take, All-append,
  ◌∙◌, ◌-◌, take-append_length, length-append, ap, sym, add-zero, ◌≤◌,
}
use termtunnel.Agent.{
  process_stdin, Bool, Bytes, stdin_loop, List, ◌∷◌, false, [], length, drop, take,
}

-- A byte that ends what stands before it.
abbrev pub ends_frame : ℕ → Bool
ends_frame c = c == b'!' || c == b'\n' || c == 0

-- The frames of a stream behind the unfinished text `acc`, and the unfinished text at its end: a
-- `!` ends a frame, and a newline or a NUL throws the unfinished text away.
unfoldable pub frames_of : Bytes → Bytes → List Bytes × Bytes
frames_of acc [] = ([], acc)
frames_of acc (c ∷ cs) =
    let (fs, end) = frames_of (if ends_frame c then [] else acc ++ c ∷ []) cs in
    (if c == b'!' then acc ∷ fs else fs, end)

pub frames_of-append :
    (acc xs ys : Bytes)
    → frames_of acc (xs ++ ys) ≡ (
      (frames_of acc xs).0 ++ (frames_of (frames_of acc xs).1 ys).0,
      (frames_of (frames_of acc xs).1 ys).1,
    )
unfolding frames_of
frames_of-append acc [] ys = refl
frames_of-append acc (c ∷ cs) ys =
    ground (arith, frames_of-append (if ends_frame c then [] else acc ++ c ∷ []) cs ys)

-- Text with no end of a frame in it.
abbrev pub NoEnd : Bytes → Type 0
NoEnd = All (λ c. ends_frame c ≡ false)

pub frames_of-NoEnd : (acc xs : Bytes) → NoEnd xs → frames_of acc xs ≡ ([], acc ++ xs)
unfolding frames_of
frames_of-NoEnd acc [] h = rw append-nil
frames_of-NoEnd acc (c ∷ cs) h =
    ground (arith, frames_of-NoEnd (acc ++ c ∷ []) cs h.1, append_assoc acc (c ∷ []) cs)

pub frames_of_unfinished : (acc xs : Bytes) → NoEnd acc → NoEnd (frames_of acc xs).1
unfolding frames_of
frames_of_unfinished acc [] h = h
frames_of_unfinished acc (c ∷ cs) h = elim (Bool-cases (ends_frame c)) [
  | inl e ↦ rw e (frames_of_unfinished [] cs tt)
  | inr e ↦ rw e (frames_of_unfinished (acc ++ c ∷ []) cs (All-append _ acc (c ∷ []) h (e, tt)))
]

pub length_unfinished : (acc xs : Bytes) → length (frames_of acc xs).1 ≤ length acc + length xs
unfolding frames_of
length_unfinished acc [] = omega arith
length_unfinished acc (c ∷ cs) = ground (
  arith,
  length_unfinished (if ends_frame c then [] else acc ++ c ∷ []) cs,
  length-append acc (c ∷ []),
)

-- The frame between `start` and `i`.
taken :
    (pre acc rest bytes : Bytes) (i start : ℕ)
    → bytes ≡ pre ++ (acc ++ rest)
    → i ≡ length pre + length acc
    → start ≡ length pre
    → take (i - start) (drop start bytes) ≡ acc
taken pre acc rest bytes i start e k s =
    let d : i - start ≡ length acc = omega arith in
    rw (d, s, e, drop-append_length pre (acc ++ rest)) (take-append_length acc rest)

abbrev LoopFrames : Bytes → Bytes → Bytes → List Bytes × ℕ → Type 0
LoopFrames bytes acc rest r =
    (r.0 ≡ (frames_of acc rest).0) × (drop r.1 bytes ≡ (frames_of acc rest).1)

-- The loop over the buffer `pre ++ acc ++ rest`, at the end of `acc`.
stdin_loop_frames :
    (rest pre acc bytes : Bytes) (i start : ℕ)
    → bytes ≡ pre ++ (acc ++ rest)
    → i ≡ length pre + length acc
    → start ≡ length pre
    → LoopFrames bytes acc rest (stdin_loop bytes i start rest)
unfolding stdin_loop frames_of
stdin_loop_frames [] pre acc bytes i start e k s =
    (refl, rw (s, e) (drop-append_length pre (acc ++ []) ∙ append-nil acc))
stdin_loop_frames (c ∷ cs) pre acc bytes i start e k s =
    let here = taken pre acc (c ∷ cs) bytes i start e k s in
    let past = pre ++ (acc ++ c ∷ []) in
    let size : i + 1 ≡ length past =
      omega (arith, length-append pre (acc ++ c ∷ []), length-append acc (c ∷ [])) in
    let regroup : bytes ≡ past ++ cs =
      e
      ∙ ap (λ l. pre ++ l) (sym (append_assoc acc (c ∷ []) cs))
      ∙ sym (append_assoc pre (acc ++ c ∷ []) cs) in
    let size' : i + 1 ≡ length pre + length (acc ++ c ∷ []) =
      omega (arith, length-append acc (c ∷ [])) in
    let regroup' : bytes ≡ pre ++ ((acc ++ c ∷ []) ++ cs) =
      e ∙ ap (λ l. pre ++ l) (sym (append_assoc acc (c ∷ []) cs)) in
    let ended =
      stdin_loop_frames cs past [] bytes (i + 1) (i + 1) regroup
        (size ∙ sym (add-zero (length past))) size in
    let going = stdin_loop_frames cs pre (acc ++ c ∷ []) bytes (i + 1) start regroup' size' s in
    elim (Bool-cases (ends_frame c)) [
      | inl b ↦ rw b (ground (arith, here, ended.0), ended.1)
      | inr b ↦ rw b (ground (arith, here, going.0, b), going.1)
    ]

-- `process_stdin` finds the frames of its buffer, and uses all but the unfinished text.
pub process_stdin_frames :
    (bytes : Bytes)
    → ((process_stdin bytes).0 ≡ (frames_of [] bytes).0)
      × (drop (process_stdin bytes).1 bytes ≡ (frames_of [] bytes).1)
unfolding process_stdin
process_stdin_frames bytes = stdin_loop_frames bytes [] [] bytes 0 0 refl refl refl
