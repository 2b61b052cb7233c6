-- ===== src/Fs/Pipe/Stream.antt =====
-- Runs of reads and writes of a pipe, core/fs/pipe.c, as a stream of bytes.
use mathlib.Core.List.{append-nil, append_assoc}
use haoud_os.Base.{
  ℕ, zero, suc, ◌+◌, ◌^◌, ◌<◌, ◌≡◌, ◌≢◌, inl, inr, false, List, [], ◌∷◌, ◌++◌, length, take,
  take_all, drop, ◌==◌, leb, arith, refl, ap, ◌∙◌, sym, Bool-cases,
}
use haoud_os.Fs.Pipe.{PipeInfo, Reading, pipe_read, Writing, pipe_write}
use haoud_os.Fs.Pipe.Contents.{IsValid, contents}
use haoud_os.Fs.Pipe.Transfer.{
  room, read_result, write_result, Writes, pipe_read_lem, pipe_write_lem,
}

-- One run of a call, until it returns or sleeps. A writer that sleeps goes on by a later run on the
-- bytes that are left.
pub data Run : Type 0 where
  reads : ℕ → Run
  writes : List ℕ → Run

-- The bytes that a read hands to its caller.
abbrev pub received : Reading → List ℕ
received (Reading.returns bytes) = bytes
received Reading.sleeps = []

-- The bytes of `src` that a write has put into the pipe when it returns or sleeps.
abbrev pub accepted : List ℕ → Writing → List ℕ
accepted src (Writing.returns n) = take n src
accepted src (Writing.sleeps rest n) = take n src
accepted src Writing.broken = []

pub record Log : Type 0 where
  pub sent : List ℕ
  pub got : List ℕ
  pub pipe : PipeInfo

-- A run of reads and writes, with all that was put in and all that was taken out.
pub run : PipeInfo → List Run → Log
run p [] = record { sent = []; got = []; pipe = p }
run p (reads n ∷ rs) =
    let l = run (pipe_read p n).1 rs in record l { got = received (pipe_read p n).0 ++ l.got }
run p (writes src ∷ rs) =
    let l = run (pipe_write p src).1 rs in
    record l { sent = accepted src (pipe_write p src).0 ++ l.sent }

-- Every buffer has a length that `size_t` holds.
abbrev pub Fits : List Run → Type 0
Fits [] = Unit {0}
Fits (reads n ∷ rs) = Fits rs
Fits (writes src ∷ rs) = (length src < 2 ^ 32) × Fits rs

take-append-drop : (n : ℕ) (xs : List ℕ) → take n xs ++ drop n xs ≡ xs
take-append-drop zero xs = refl
take-append-drop (suc n) [] = refl
take-append-drop (suc n) (x ∷ xs) = ap (◌∷◌ x) (take-append-drop n xs)

received-read_result :
    (n : ℕ) (cs : List ℕ) (writers : ℕ) → received (read_result n cs writers) ++ drop n cs ≡ cs
received-read_result zero [] writers = ground arith
received-read_result (suc n) [] writers = ground arith
received-read_result n (c ∷ cs) writers = take-append-drop n (c ∷ cs)

accepted-write_result :
    (src : List ℕ) (k readers : ℕ)
    → readers ≢ 0
    → accepted src (write_result src 0 k readers) ≡ take k src
accepted-write_result src k readers some_left = elim (Bool-cases (leb (length src) k)) [
  | inl all ↦
      rw all (take_all (0 + length src) src (omega arith) ∙ sym (take_all k src (ground arith)))
  | inr part ↦
      let left : (readers == 0) ≡ false = ground arith in
      rw (part, left) (ap (λ n. take n src) (omega arith))
]

read_step :
    (n : ℕ) (p : PipeInfo)
    → IsValid p
    → received (pipe_read p n).0 ++ contents (pipe_read p n).1 ≡ contents p
read_step n p v =
    let (result, left, _, _, _) = pipe_read_lem n p v in
    rw (result, left) (received-read_result n (contents p) p.writers)

write_step :
    (src : List ℕ) (p : PipeInfo)
    → Writes src 0 p (pipe_write p src)
    → p.readers ≢ 0
    → contents (pipe_write p src).1 ≡ contents p ++ accepted src (pipe_write p src).0
write_step src p w some_left =
    rw (w.bytes, w.result)
      (ap (◌++◌ (contents p)) (sym (accepted-write_result src (room p) p.readers some_left)))

wrote :
    (src : List ℕ) (p : PipeInfo)
    → length src < 2 ^ 32
    → IsValid p
    → p.readers ≢ 0
    → Writes src 0 p (pipe_write p src)
wrote src p h v some_left = elim (pipe_write_lem src p h v) [
  | inl (no_reader, _) ↦ absurd (some_left no_reader)
  | inr (_, w) ↦ w
]

-- Over any interleaving of reads and writes, while there is a reader: what was read, followed by what
-- still waits, is what waited at first followed by what was written, in order.
pub run_lem :
    (p : PipeInfo) (rs : List Run)
    → IsValid p
    → p.readers ≢ 0
    → Fits rs
    → (run p rs).got ++ contents (run p rs).pipe ≡ contents p ++ (run p rs).sent
unfolding run
run_lem p [] v some_left h = sym (append-nil (contents p))
run_lem p (reads n ∷ rs) v some_left h =
    let (_, _, _, valid, same) = pipe_read_lem n p v in
    let q = (pipe_read p n).1 in
    let ih = run_lem q rs valid (rw same some_left) h in
    append_assoc (received (pipe_read p n).0) _ _
    ∙ ap (◌++◌ (received (pipe_read p n).0)) ih
    ∙ sym (append_assoc (received (pipe_read p n).0) (contents q) _)
    ∙ ap (λ xs. xs ++ (run q rs).sent) (read_step n p v)
run_lem p (writes src ∷ rs) v some_left h =
    let w = wrote src p h.0 v some_left in
    let q = (pipe_write p src).1 in
    let ih = run_lem q rs w.valid (rw w.same_readers some_left) h.1 in
    ih
    ∙ ap (λ xs. xs ++ (run q rs).sent) (write_step src p w some_left)
    ∙ append_assoc (contents p) (accepted src (pipe_write p src).0) _
