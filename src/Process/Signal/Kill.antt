-- ===== src/Process/Signal/Kill.antt =====
-- sys_kill, and PidToProcess.
use haoud_os.Base.{
  ℕ, suc, ◌+◌, ◌<◌, ◌≤◌, ◌≡◌, ◌≢◌, inl, inr, true, ◌&&◌, none, some, List, [], ◌∷◌, ltb, ◌==◌,
  length, get_or, neg32, ok, fault, arith, refl, ap, Bool-cases,
}
use haoud_os.Process.Task.{
  Process, zero_process, Table, entry, size, entry-modify_self, entry-modify_ne,
}
use haoud_os.Process.Signal.{
  set_signal, has_signal, valid_signal, pid_to_process, send, signal_siblings, sys_kill,
}
use haoud_os.Process.Signal.Pending.{has-set, has-set_ne}

-- The slot found has the number looked for.
pub pid_to_process_lem :
    (pid i : ℕ) (ps : List Process) (j : ℕ)
    → pid_to_process pid i ps ≡ some j
    → (k : ℕ) × (j ≡ i + k) × (k < length ps) × ((get_or ps k zero_process).pid ≡ pid)
unfolding pid_to_process
pid_to_process_lem pid i [] j e = absurd (ground arith)
pid_to_process_lem pid i (p ∷ ps) j e = elim (Bool-cases (p.pid == pid)) [
  | inl y ↦ (0, ground arith, omega arith, ground arith)
  | inr n ↦
      let (k, ej, hk, y) = pid_to_process_lem pid (i + 1) ps j (rw (n) at e) in
      (suc k, omega arith, omega arith, y)
]

-- Signal `s` is pending for process `i`; nothing else changes.
abbrev pub Sent : ℕ → ℕ → Table → Table → Type 0
Sent s i t u =
    (has_signal (entry u i).signal s ≡ true)
    × ((k : ℕ) → 1 ≤ k → s ≢ k → has_signal (entry u i).signal k ≡ has_signal (entry t i).signal k)
    × ((j : ℕ) → i ≢ j → entry u j ≡ entry t j)

sent_signal :
    (s i : ℕ) (t : Table)
    → i < size t
    → (entry (send s i t) i).signal ≡ set_signal (entry t i).signal s
sent_signal s i t h =
    ap Process.signal (entry-modify_self i (λ p. record p { signal = set_signal p.signal s }) t h)

pub send_lem :
    (s i : ℕ) (t : Table)
    → i < size t
    → 1 ≤ s
    → s ≤ length (entry t i).signal
    → Sent s i t (send s i t)
send_lem s i t h h1 hs =
    let e = sent_signal s i t h in
    (
      rw (e) (has-set (entry t i).signal s h1 hs),
      λ k hk n. rw (e) (has-set_ne (entry t i).signal s k h1 hk n),
      λ j n. entry-modify_ne i j (λ p. record p { signal = set_signal p.signal s }) t n,
    )

found_slot :
    (pid : ℕ) (t : Table) (i : ℕ) → pid_to_process pid 0 t.process_list ≡ some i → i < size t
found_slot pid t i e =
    let (k, ej, hk, y) = pid_to_process_lem pid 0 t.process_list i e in omega arith

-- A valid signal sent to a process number above 1 that is found, in a slot with 32 signal bits, is
-- pending for that slot afterwards; its other signals and all other slots are as before.
pub sys_kill_lem :
    (pid s i : ℕ) (t : Table)
    → 1 < pid
    → pid < 0x8000_0000
    → valid_signal s ≡ true
    → pid_to_process pid 0 t.process_list ≡ some i
    → length (entry t i).signal ≡ 32
    → (u : Table) × (sys_kill pid s t ≡ ok (0, u)) × Sent s i t u
unfolding sys_kill
sys_kill_lem pid s i t h h' valid found len =
    let in_range : (ltb 1 pid && ltb pid 0x8000_0000) ≡ true = ground arith in
    let bounds : (1 < s) × (s < 32) = (ground arith, ground arith) in
    (
      send s i t,
      rw (in_range, found, valid) refl,
      send_lem s i t (found_slot pid t i found) (omega arith) (omega arith),
    )

first_round : (i : ℕ) → (i == i) ≡ true
first_round i = ground arith

-- For process number -1 the walk over the siblings runs into NULL if the current process has a
-- sibling list and the first of it has no next sibling.
pub sys_kill_siblings :
    (s head : ℕ) (t : Table)
    → (entry t t.current).sibling ≡ some head
    → (entry t head).sibling_next ≡ none
    → sys_kill (neg32 1) s t ≡ fault
unfolding sys_kill signal_siblings
sys_kill_siblings s head t e e' = rw (e, first_round head, e') refl
