-- ===== src/Mm/Brk.antt =====
-- The end of the heap of a process, core/mm/brk.c.
use haoud_os.Base.{ℕ, ◌≤◌, ◌<◌, ◌≡◌, ◌⊎◌, ◌==◌, ltb, if◌then◌else◌, arith}

-- `brk_start` and `brk_end` of a process.
pub record Brk : Type 0 where
  pub brk_start : ℕ
  pub brk_end : ℕ

unfoldable pub init_brk : Brk
init_brk = record { brk_start = 0; brk_end = 0 }

-- The result, with the process' heap after the call.
unfoldable pub extend_brk : ℕ → Brk → ℕ × Brk
extend_brk addr p =
    if addr == 0
    then (p.brk_end, p)
    else if addr == p.brk_end
    then (p.brk_end, p)
    else if ltb addr p.brk_start
    then (0, p)
    else if p.brk_end == 0
    then (addr, record { brk_start = addr; brk_end = addr })
    else (addr, record p { brk_end = addr })

-- The heap does not end before it starts.
pub IsHeap : Brk → Type 0
IsHeap p = (p.brk_start ≤ p.brk_end)

pub init_brk-IsHeap : IsHeap init_brk
unfolding init_brk IsHeap
init_brk-IsHeap = omega arith

-- A call keeps the heap a heap. It returns the end of the heap, except for an address below its
-- start, where it returns 0 and changes nothing.
pub extend_brk-IsHeap :
    (addr : ℕ) (p : Brk)
    → IsHeap p
    → IsHeap ((extend_brk addr p).1)
      × (((extend_brk addr p).0 ≡ (extend_brk addr p).1.brk_end)
          ⊎ ((addr < p.brk_start) × (extend_brk addr p ≡ (0, p))))
unfolding extend_brk IsHeap
extend_brk-IsHeap addr p h = ground arith
