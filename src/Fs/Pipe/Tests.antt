-- ===== src/Fs/Pipe/Tests.antt =====
-- Runs on a fresh pipe, and the theorems at inputs that meet their premises.
use haoud_os.Base.{ℕ, ◌≡◌, ◌≢◌, [], ◌∷◌, ◌++◌, replicate, length-replicate, arith, refl, page_size}
use haoud_os.Fs.Pipe.{
  PipeInfo, Reading, Writing, new_pipe, pipe_getc, pipe_putc, read_loop, pipe_read, write_loop,
  pipe_write,
}
use haoud_os.Fs.Pipe.Contents.{IsValid, contents}
use haoud_os.Fs.Pipe.Stream.{reads, writes, run, run_lem}

fresh : PipeInfo
unfolding new_pipe
fresh = new_pipe (replicate page_size 0)

fresh-IsValid : IsValid fresh
unfolding fresh
fresh-IsValid = record {
  page = length-replicate {A = ℕ} page_size 0;
  read_in = omega arith;
  write_in = omega arith;
}

write_three : (pipe_write fresh (7 ∷ 8 ∷ 9 ∷ [])).0 ≡ Writing.returns 3
unfolding fresh pipe_write write_loop pipe_putc
write_three = refl

read_two : (pipe_read (pipe_write fresh (7 ∷ 8 ∷ 9 ∷ [])).1 2).0 ≡ Reading.returns (7 ∷ 8 ∷ [])
unfolding fresh pipe_write write_loop pipe_putc pipe_read read_loop pipe_getc
read_two = refl

run_lem_example :
    let l = run fresh (writes (7 ∷ 8 ∷ 9 ∷ []) ∷ reads 2 ∷ writes (5 ∷ []) ∷ []) in
    l.got ++ contents l.pipe ≡ contents fresh ++ l.sent
unfolding fresh
run_lem_example =
    run_lem fresh (writes (7 ∷ 8 ∷ 9 ∷ []) ∷ reads 2 ∷ writes (5 ∷ []) ∷ []) fresh-IsValid
      fresh_readers (omega arith)
  where
    fresh_readers : fresh.readers ≢ 0
    fresh_readers = omega arith
