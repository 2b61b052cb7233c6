-- ===== src/Fs/Pipe/Ends.antt =====
-- The two ends of a pipe: closing, duplicating, and the wake-ups that go with them.
use haoud_os.Base.{ℕ, ◌+◌, ◌-◌, ◌^◌, ◌<◌, ◌≡◌, ◌⊎◌, List, [], ◌∷◌, arith}
use haoud_os.Fs.Pipe.{
  PipeInfo, WaitQueue, standby_readers, standby_writers, End, reader, writer, pipe_close_file,
  duplicate_pipe,
}

-- How many descriptors stand for an end.
abbrev pub ends : End → PipeInfo → ℕ
ends reader p = p.readers
ends writer p = p.writers

abbrev pub other : End → End
other reader = writer
other writer = reader

-- The processes that wait for the other end to act: those that the closing of this end may strand.
abbrev pub waiting_on : End → WaitQueue
waiting_on writer = standby_readers
waiting_on reader = standby_writers

abbrev pub Woken : WaitQueue → List WaitQueue → Type 0
Woken q [] = ⊥
Woken q (w ∷ ws) = (q ≡ w) ⊎ Woken q ws

-- Closing a descriptor takes one off its end and leaves the other end and the bytes alone; when it was
-- the last of its end, those that wait on that end are woken. Duplicating it first makes no change in all.
pub pipe_close_file_lem :
    (e : End) (p : PipeInfo)
    → 0 < ends e p
    → ends e p < 2 ^ 32 - 1
    → (ends e (pipe_close_file e p).0 + 1 ≡ ends e p)
      × (ends (other e) (pipe_close_file e p).0 ≡ ends (other e) p)
      × ((pipe_close_file e p).0.pipe_data ≡ p.pipe_data)
      × (ends e p ≡ 1 → Woken (waiting_on e) (pipe_close_file e p).1)
      × ((pipe_close_file e (duplicate_pipe e p)).0 ≡ p)
unfolding pipe_close_file duplicate_pipe
pipe_close_file_lem reader p h big = ground arith
pipe_close_file_lem writer p h big = ground arith
