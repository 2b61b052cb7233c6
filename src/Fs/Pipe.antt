-- ===== src/Fs/Pipe.antt =====
-- Pipes, core/fs/pipe.c and include/core/fs/pipe.h: one page used as a ring of bytes. A read or a write
-- runs until it returns or puts its process to sleep; a process that wakes up tests again, so the
-- call goes on as a call of the same function on what is left. The wait queues that a call wakes are
-- listed in its result, in order. `down_semaphore` on `atomic_write` admits one writer at a time, so
-- `pipe_write` starts where it has been passed.
pub mod Contents
pub mod Transfer
pub mod Stream
pub mod Ends
mod Tests
use haoud_os.Base.{
  ℕ, zero, suc, ◌+◌, ◌-◌, ◌%◌, ◌<◌, ◌≡◌, Bool, true, false, not, ◌&&◌, Option, none, some, List, [],
  ◌∷◌, ◌++◌, length, get_or, set, replicate, ltb, ◌==◌, if◌then◌else◌, add32, sub32, page_size,
  Exec, ok, panic, fault,
}

-- `struct pipe_info`, without its semaphore and its two wait queues.
pub record PipeInfo : Type 0 where
  pub pipe_data : List ℕ
  pub read_off : ℕ
  pub write_off : ℕ
  pub writers : ℕ
  pub readers : ℕ

-- The wait queue that `wake_up` is called on.
pub data WaitQueue : Type 0 where
  standby_readers standby_writers : WaitQueue

abbrev pub pipe_empty : PipeInfo → Bool
pipe_empty p = p.read_off == p.write_off

abbrev pub pipe_left : PipeInfo → ℕ
pipe_left p = sub32 p.write_off (sub32 p.read_off 1) % page_size

abbrev pub pipe_full : PipeInfo → Bool
pipe_full p = pipe_left p == 0

-- `off++`, back to 0 at the end of the page.
abbrev pub bump : ℕ → ℕ
bump off = let next = add32 off 1 in if next == page_size then 0 else next

unfoldable pub pipe_getc : PipeInfo → ℕ × PipeInfo
pipe_getc p = (get_or p.pipe_data p.read_off 0, record p { read_off = bump p.read_off })

unfoldable pub pipe_putc : PipeInfo → ℕ → PipeInfo
pipe_putc p c = record p { pipe_data = set p.pipe_data p.write_off c; write_off = bump p.write_off }

-- What get_pipe_inode makes, once it has its memory: the page as it was mapped, one end each.
unfoldable pub new_pipe : List ℕ → PipeInfo
new_pipe page = record { pipe_data = page; read_off = 0; write_off = 0; writers = 1; readers = 1 }

-- `while (len_readed < *len && !pipe_empty(p))`, on the bytes still wanted.
unfoldable pub read_loop : ℕ → PipeInfo → List ℕ × PipeInfo
read_loop zero p = ([], p)
read_loop (suc n) p =
    let rest = read_loop n (pipe_getc p).1 in
    if pipe_empty p then ([], p) else ((pipe_getc p).0 ∷ rest.0, rest.1)

pub data Reading : Type 0 where
  -- RET_OK, with the bytes copied to `dst_buf`
  returns : List ℕ → Reading
  -- `sleep_on(standby_readers)`
  sleeps : Reading

unfoldable pub pipe_read : PipeInfo → ℕ → Reading × PipeInfo × List WaitQueue
pipe_read p len =
    if pipe_empty p
    then ((if p.writers == 0 then returns [] else sleeps), p, standby_writers ∷ [])
    else (returns (read_loop len p).0, (read_loop len p).1, standby_writers ∷ [])

pub data Writing : Type 0 where
  -- RET_OK, with the number of bytes written
  returns : ℕ → Writing
  -- `sleep_on(standby_writers)`, with the bytes left and the number already written
  sleeps : List ℕ → ℕ → Writing
  -- `panic("Broken_pipe (pipe_write)")`
  broken : Writing

-- The loop over the bytes of `src_buf`.
unfoldable pub write_loop : List ℕ → ℕ → PipeInfo → Writing × PipeInfo × List WaitQueue
write_loop [] len_writed p = (returns len_writed, p, [])
write_loop (c ∷ src) len_writed p =
    let rest = write_loop src (add32 len_writed 1) (pipe_putc p c) in
    let stuck = if p.readers == 0 then broken else sleeps (c ∷ src) len_writed in
    if pipe_full p
    then (stuck, p, standby_readers ∷ [])
    else (rest.0, rest.1, standby_readers ∷ rest.2)

unfoldable pub pipe_write : PipeInfo → List ℕ → Writing × PipeInfo × List WaitQueue
pipe_write p src = if p.readers == 0 then (broken, p, []) else write_loop src 0 p

-- `open_flags & OPEN_WRITE`: the end that a descriptor stands for.
pub data End : Type 0 where
  reader writer : End

unfoldable pub pipe_close_file : End → PipeInfo → PipeInfo × List WaitQueue
pipe_close_file e p = (p', wakes)
  where
    p' : PipeInfo
    p' = elim e [
      | writer ↦ record p { writers = sub32 p.writers 1 }
      | reader ↦ record p { readers = sub32 p.readers 1 }
    ]

    wakes : List WaitQueue
    wakes =
        (if p'.writers == 0 then standby_readers ∷ [] else [])
        ++ (if p'.readers == 0 then standby_writers ∷ [] else [])

-- duplicate_pipe, once it has its memory.
unfoldable pub duplicate_pipe : End → PipeInfo → PipeInfo
duplicate_pipe writer p = record p { writers = add32 p.writers 1 }
duplicate_pipe reader p = record p { readers = add32 p.readers 1 }

-- pipe_destructor, up to the release of the memory.
unfoldable pub pipe_destructor : PipeInfo → Exec PipeInfo
pipe_destructor p = if p.readers == 0 then (if p.writers == 0 then ok p else panic) else panic
