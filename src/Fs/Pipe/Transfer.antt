-- ===== src/Fs/Pipe/Transfer.antt =====
-- What one run of `pipe_read` and of `pipe_write` moves.
use mathlib.Core.List.{append-nil, append_assoc}
use haoud_os.Base.{
  ℕ, zero, suc, ◌+◌, ◌-◌, ◌^◌, ◌<◌, ◌≡◌, ◌≢◌, ◌⊎◌, inl, inr, true, false, List, [], ◌∷◌, ◌++◌,
  length, take, drop, length-append, if◌then◌else◌, ◌==◌, leb, arith, refl, ap, ◌∙◌, sym, add32,
  Bool-cases,
}
use haoud_os.Fs.Pipe.{
  PipeInfo, WaitQueue, standby_writers, pipe_empty, pipe_full, pipe_getc, pipe_putc, read_loop,
  Reading, pipe_read, Writing, write_loop, pipe_write,
}
use haoud_os.Fs.Pipe.Contents.{
  IsValid, contents, fill, full_iff_fill, length-segment, pipe_putc-IsValid, pipe_getc-IsValid,
  contents-pipe_putc, contents-pipe_getc, contents-empty, length-contents,
}

-- How many bytes more the pipe takes.
abbrev pub room : PipeInfo → ℕ
room p = 4095 - length (contents p)

take-nil : (n : ℕ) → take {A = ℕ} n [] ≡ []
take-nil zero = refl
take-nil (suc n) = refl

drop-nil : (n : ℕ) → drop {A = ℕ} n [] ≡ []
drop-nil zero = refl
drop-nil (suc n) = refl

pub readers-pipe_putc : (p : PipeInfo) (c : ℕ) → (pipe_putc p c).readers ≡ p.readers
unfolding pipe_putc
readers-pipe_putc p c = refl

pub readers-pipe_getc : (p : PipeInfo) → (pipe_getc p).1.readers ≡ p.readers
unfolding pipe_getc
readers-pipe_getc p = refl

-- What the loop of `pipe_read` leaves.
pub record Reads (n : ℕ) (p : PipeInfo) (r : List ℕ × PipeInfo) : Type 0 where
  pub bytes : r.0 ≡ take n (contents p)
  pub left : contents r.1 ≡ drop n (contents p)
  pub valid : IsValid r.1
  pub same_readers : r.1.readers ≡ p.readers

read_loop-Reads : (n : ℕ) (p : PipeInfo) → IsValid p → Reads n p (read_loop n p)
unfolding read_loop
read_loop-Reads zero p v = record { bytes = refl; left = refl; valid = v; same_readers = refl }
read_loop-Reads (suc n) p v = elim (Bool-cases (pipe_empty p)) [
  | inl e ↦
      let none_wait = contents-empty p v e in
      rw e (record { bytes = rw none_wait; left = rw none_wait; valid = v; same_readers = refl })
  | inr some_byte ↦
      let first = contents-pipe_getc p v some_byte in
      let ih = read_loop-Reads n (pipe_getc p).1 (pipe_getc-IsValid p v) in
      rw some_byte (record {
        bytes = rw first (ap (◌∷◌ (pipe_getc p).0) ih.bytes);
        left = rw first ih.left;
        valid = ih.valid;
        same_readers = ih.same_readers ∙ readers-pipe_getc p;
      })
]

-- How the loop of `pipe_write` ends, from the room in the pipe and the number of readers alone.
abbrev pub write_result : List ℕ → ℕ → ℕ → ℕ → Writing
write_result src n room readers =
    if leb (length src) room
    then Writing.returns (n + length src)
    else if readers == 0
    then Writing.broken
    else Writing.sleeps (drop room src) (n + room)

write_result_step :
    (c : ℕ) (src : List ℕ) (n room readers : ℕ)
    → write_result src (n + 1) room readers ≡ write_result (c ∷ src) n (suc room) readers
write_result_step c src n room readers = ground arith

pub record Writes (src : List ℕ) (n : ℕ) (p : PipeInfo) (r : Writing × PipeInfo × List WaitQueue)
    : Type 0 where
  pub result : r.0 ≡ write_result src n (room p) p.readers
  pub bytes : contents r.1 ≡ contents p ++ take (room p) src
  pub valid : IsValid r.1
  pub same_readers : r.1.readers ≡ p.readers

room-pipe_putc :
    (p : PipeInfo) (c : ℕ) → IsValid p → pipe_full p ≡ false → suc (room (pipe_putc p c)) ≡ room p
room-pipe_putc p c v free =
    let more = contents-pipe_putc p c v free in
    let most = length-contents (pipe_putc p c) (pipe_putc-IsValid p c v) in
    omega (arith, ap length more, length-append (contents p) (c ∷ []))

room-full : (p : PipeInfo) → IsValid p → pipe_full p ≡ true → room p ≡ 0
room-full p v e = ground (arith, full_iff_fill p v, length-segment p.pipe_data p.read_off (fill p))

write_loop-Writes :
    (src : List ℕ) (n : ℕ) (p : PipeInfo)
    → n + length src < 2 ^ 32
    → IsValid p
    → Writes src n p (write_loop src n p)
unfolding write_loop
write_loop-Writes [] n p h v = record {
  result = ground arith;
  bytes = rw (take-nil (room p), append-nil);
  valid = v;
  same_readers = refl;
}
write_loop-Writes (c ∷ src) n p h v = elim (Bool-cases (pipe_full p)) [
  | inl full ↦
      let no_room = room-full p v full in
      rw full (record {
        result = rw no_room (ground arith);
        bytes = rw (no_room, append-nil);
        valid = v;
        same_readers = refl;
      })
  | inr free ↦
      let q = pipe_putc p c in
      let ih = write_loop-Writes src (n + 1) q (omega arith) (pipe_putc-IsValid p c v) in
      let more = room-pipe_putc p c v free in
      let count : add32 n 1 ≡ n + 1 = omega arith in
      rw (free, count)
        (record {
          result =
              ih.result
              ∙ rw (readers-pipe_putc p c) (write_result_step c src n (room q) p.readers)
              ∙ ap (λ k. write_result (c ∷ src) n k p.readers) more;
          bytes =
              ih.bytes
              ∙ rw (contents-pipe_putc p c v free) (append_assoc (contents p) (c ∷ []) _)
              ∙ ap (λ k. contents p ++ take k (c ∷ src)) more;
          valid = ih.valid;
          same_readers = ih.same_readers ∙ readers-pipe_putc p c;
        })
]

-- What a read of `n` bytes returns, from the bytes that wait and the number of writers alone.
abbrev pub read_result : ℕ → List ℕ → ℕ → Reading
read_result n [] writers = if writers == 0 then Reading.returns [] else Reading.sleeps
read_result n (c ∷ cs) writers = Reading.returns (take n (c ∷ cs))

read_result_some :
    (n : ℕ) (c : ℕ) (cs bytes : List ℕ) (writers : ℕ)
    → bytes ≡ c ∷ cs
    → Reading.returns (take n bytes) ≡ read_result n bytes writers
read_result_some n c cs bytes writers e = rw e

-- `pipe_read` returns the oldest bytes, at most as many as it is asked for, and takes exactly these
-- from the pipe. From an empty pipe it returns none if there is no writer, and sleeps otherwise. It
-- always wakes the writers.
pub pipe_read_lem :
    (n : ℕ) (p : PipeInfo)
    → IsValid p
    → ((pipe_read p n).0 ≡ read_result n (contents p) p.writers)
      × (contents (pipe_read p n).1 ≡ drop n (contents p))
      × ((pipe_read p n).2 ≡ standby_writers ∷ [])
      × IsValid (pipe_read p n).1
      × ((pipe_read p n).1.readers ≡ p.readers)
unfolding pipe_read
pipe_read_lem n p v = elim (Bool-cases (pipe_empty p)) [
  | inl e ↦
      let none_wait = contents-empty p v e in
      rw e (rw none_wait refl, rw none_wait (sym (drop-nil n)), refl, v, refl)
  | inr some_byte ↦
      let all = read_loop-Reads n p v in
      rw some_byte (
        ap Reading.returns all.bytes
            ∙ read_result_some n _ _ (contents p) p.writers (contents-pipe_getc p v some_byte),
        all.left,
        refl,
        all.valid,
        all.same_readers,
      )
]

-- `pipe_write` adds as many bytes as there is room for behind those that wait. If that is all of
-- them it returns their number; else it sleeps on the rest. With no reader it panics.
pub pipe_write_lem :
    (src : List ℕ) (p : PipeInfo)
    → length src < 2 ^ 32
    → IsValid p
    → ((p.readers ≡ 0) × ((pipe_write p src).0 ≡ Writing.broken))
      ⊎ ((p.readers ≢ 0) × Writes src 0 p (pipe_write p src))
unfolding pipe_write
pipe_write_lem src p h v = elim (Bool-cases (p.readers == 0)) [
  | inl none_left ↦ inl (ground arith, rw none_left)
  | inr some_left ↦ inr (ground arith, rw some_left (write_loop-Writes src 0 p (omega arith) v))
]
