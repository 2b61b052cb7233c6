-- ===== src/Process/Task.antt =====
-- `struct process` and the process table, include/core/process/process.h and core/process/process.c.
-- A pointer to a process is its index in `process_list`.
use haoud_os.Base.{
  ℕ, ◌<◌, ◌≡◌, ◌≢◌, ◌⊎◌, inl, inr, Bool, true, false, List, [], ◌∷◌, Option, none, replicate, ◌||◌,
  get_or, set, length, length-set, get_or-set_self, get_or-set_ne, set_outside, ◌≤◌, sym, ap,
  decide_equal,
}

-- `TASK_UNRUNNABLE` to `TASK_ZOMBIE`
pub data TaskState : Type 0 where
  unrunnable created ready running blocked_interruptible blocked_uninterruptible zombie : TaskState

abbrev pub is_ready : TaskState → Bool
is_ready ready = true
is_ready _ = false

abbrev pub is_running : TaskState → Bool
is_running running = true
is_running _ = false

-- `signal != 0`
abbrev pub any : List Bool → Bool
any [] = false
any (b ∷ bs) = b || any bs

abbrev pub is_interruptible : TaskState → Bool
is_interruptible blocked_interruptible = true
is_interruptible _ = false

-- The fields that scheduling, signals, sleeping and the heap of a process use. `signal` is the bits of
-- the word, from the lowest.
pub record Process : Type 0 where
  pub pid : ℕ
  pub state : TaskState
  pub priority : ℕ
  pub current_priority : ℕ
  pub signal : List Bool
  pub sigfn : List ℕ
  pub sibling : Option ℕ
  pub sibling_next : Option ℕ
  pub user_tick : ℕ
  pub kernel_tick : ℕ
  pub brk_start : ℕ
  pub brk_end : ℕ
  pub kstack_ss0 : ℕ
  pub kstack_esp0 : ℕ
  pub cpu_contexte : ℕ
  pub mm_contexte : ℕ

-- An entry of the static table: all zero.
abbrev pub zero_process : Process
zero_process = record {
  pid = 0;
  state = unrunnable;
  priority = 0;
  current_priority = 0;
  signal = replicate 32 false;
  sigfn = [];
  sibling = none;
  sibling_next = none;
  user_tick = 0;
  kernel_tick = 0;
  brk_start = 0;
  brk_end = 0;
  kstack_ss0 = 0;
  kstack_esp0 = 0;
  cpu_contexte = 0;
  mm_contexte = 0;
}

-- The table, `current`, the task segment's stack and the memory context that is loaded.
pub record Table : Type 0 where
  pub process_list : List Process
  pub current : ℕ
  pub tss_ss0 : ℕ
  pub tss_esp0 : ℕ
  pub current_mm_context : ℕ

abbrev pub entry : Table → ℕ → Process
entry t i = get_or t.process_list i zero_process

abbrev pub modify : ℕ → (Process → Process) → Table → Table
modify i f t = record t { process_list = set t.process_list i (f (entry t i)) }

abbrev pub size : Table → ℕ
size t = length t.process_list

pub entry-modify_self :
    (i : ℕ) (f : Process → Process) (t : Table)
    → i < size t
    → entry (modify i f t) i ≡ f (entry t i)
entry-modify_self i f t h = get_or-set_self t.process_list i (f (entry t i)) zero_process h

pub entry-modify_ne :
    (i j : ℕ) (f : Process → Process) (t : Table) → i ≢ j → entry (modify i f t) j ≡ entry t j
entry-modify_ne i j f t ne = get_or-set_ne t.process_list i j (f (entry t i)) zero_process ne

pub size-modify : (i : ℕ) (f : Process → Process) (t : Table) → size (modify i f t) ≡ size t
size-modify i f t = length-set t.process_list i (f (entry t i))

pub modified_self :
    (i j : ℕ) (f : Process → Process) (t : Table)
    → i ≡ j
    → i < size t
    → entry (modify i f t) j ≡ f (entry t j)
modified_self i j f t e h = rw (sym e) (entry-modify_self i f t h)

-- Each entry is the old one, or the one that was modified.
pub entry-modify :
    (i j : ℕ) (f : Process → Process) (t : Table)
    → i < size t
    → ((i ≢ j) × (entry (modify i f t) j ≡ entry t j))
      ⊎ ((i ≡ j) × (entry (modify i f t) j ≡ f (entry t j)))
entry-modify i j f t h = elim (decide_equal i j) [
  | inl e ↦ inr (e, modified_self i j f t e h)
  | inr n ↦ inl (n, entry-modify_ne i j f t n)
]

pub modify_outside : (i : ℕ) (f : Process → Process) (t : Table) → size t ≤ i → modify i f t ≡ t
modify_outside i f t h =
    ap (λ ps. record t { process_list = ps }) (set_outside t.process_list i (f (entry t i)) h)
