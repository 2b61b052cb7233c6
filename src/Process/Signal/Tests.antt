-- ===== src/Process/Signal/Tests.antt =====
-- Runs of the signal functions.
use haoud_os.Base.{
  ℕ, ◌-◌, ◌∙◌, ◌≤◌, ◌≡◌, ◌≢◌, Bool, false, some, List, [], ◌∷◌, replicate, ok, refl, arith,
}
use haoud_os.Process.Task.{running, ready, zero_process, Table}
use haoud_os.Process.Signal.{
  set_signal, has_signal, sig_dfl, first_signal, dequeue_signal, returned, do_signal,
  pid_to_process, sys_kill,
}
use haoud_os.Process.Signal.Pending.{has-set_ne, any-false, NonePending}
use haoud_os.Process.Signal.Deliver.{word, do_signal_lem}
use haoud_os.Process.Signal.Kill.{Sent, sys_kill_lem}

abbrev empty : List Bool
empty = replicate 32 false

abbrev pending : List Bool → Table
pending w = record {
  process_list =
      record zero_process {
        pid = 5;
        state = running;
        signal = w;
        sigfn = replicate 32 sig_dfl;
        sibling = some 1;
      }
      ∷ record zero_process { pid = 6; state = ready }
      ∷ [];
  current = 0;
  tss_ss0 = 16;
  tss_esp0 = 900;
  current_mm_context = 0;
}

dequeue_13 : dequeue_signal (set_signal (set_signal empty 20) 13) ≡ 13
unfolding first_signal dequeue_signal
dequeue_13 = refl

do_signal_lem_example :
    let t = pending (set_signal empty 13) in
    let s = dequeue_signal (word t) in
    (u : Table) × (do_signal t ≡ returned 0 u)
    × (has_signal (word u) s ≡ false)
    × ((k : ℕ) → 1 ≤ k → s ≢ k → has_signal (word u) k ≡ has_signal (word t) k)
unfolding first_signal dequeue_signal
do_signal_lem_example = do_signal_lem (pending (set_signal empty 13)) (omega arith) refl refl

none_below_17 : NonePending (word (pending (set_signal (set_signal empty 17) 22))) 1 17
none_below_17 k h h' =
    has-set_ne (set_signal empty 17) 22 k (omega arith) h (λ e. omega arith)
    ∙ has-set_ne empty 17 k (omega arith) h (λ e. omega arith)
    ∙ any-false empty (k - 1) refl

sys_kill_lem_example :
    (u : Table) × (sys_kill 6 9 (pending empty) ≡ ok (0, u)) × Sent 9 1 (pending empty) u
unfolding pid_to_process
sys_kill_lem_example = sys_kill_lem 6 9 1 (pending empty) (omega arith) (omega arith) refl refl refl
