-- ===== src/Process/Signal.antt =====
-- core/process/signal.c with the macros of its header, and core/syscall/sys_kill.c. A signal word is
-- the list of its 32 bits, signal `s` the bit `s - 1`. Messages to the console are left out.
pub mod Pending
pub mod Deliver
pub mod Kill
mod Tests
use haoud_os.Base.{
  ℕ, zero, suc, ◌+◌, ◌-◌, Bool, true, false, not, ◌&&◌, Option, none, some, List, [], ◌∷◌, ltb,
  ◌==◌, if◌then◌else◌, get_or, set, replicate, neg32, Exec, ok, panic, fault,
}
use haoud_os.Process.Task.{Process, Table, entry, modify, any}

abbrev pub set_signal : List Bool → ℕ → List Bool
set_signal var s = set var (s - 1) true

abbrev pub clear_signal : List Bool → ℕ → List Bool
clear_signal var s = set var (s - 1) false

abbrev pub has_signal : List Bool → ℕ → Bool
has_signal var s = get_or var (s - 1) false

abbrev pub valid_signal : ℕ → Bool
valid_signal s = ltb 1 s && ltb s 32

-- `SIGHUP`, `SIGINT`, `SIGQUIT`, `SIGFPE`, `SIGSEGV`, `SIGCHLD`
abbrev pub sighup : ℕ
sighup = 1

abbrev pub sigint : ℕ
sigint = 2

abbrev pub sigquit : ℕ
sigquit = 3

abbrev pub sigfpe : ℕ
sigfpe = 8

abbrev pub sigsegv : ℕ
sigsegv = 11

abbrev pub sigchld : ℕ
sigchld = 17

-- `SIG_DFL` and `SIG_IGN`
abbrev pub sig_dfl : ℕ
sig_dfl = 0

abbrev pub sig_ign : ℕ
sig_ign = 1

abbrev pub init_signals : Process → Process
init_signals p = record p { signal = replicate 32 false; sigfn = replicate 32 sig_dfl }

-- The loop of `dequeue_signal`, from signal `i` on.
unfoldable pub first_signal : (rounds : ℕ) → ℕ → List Bool → ℕ
first_signal zero i var = 0
first_signal (suc rounds) i var =
    let rest = first_signal rounds (i + 1) var in if has_signal var i then i else rest

unfoldable pub dequeue_signal : List Bool → ℕ
dequeue_signal var = if any var then first_signal 31 1 var else 0

-- `handle_signal` returns, or ends the process by `sys_exit`.
pub data Handled : Type 0 where
  returned : ℕ → Table → Handled
  exits : ℕ → Table → Handled

abbrev pub clear_current : ℕ → Table → Table
clear_current s t = modify t.current (λ p. record p { signal = clear_signal p.signal s }) t

-- The switch over the signals' default actions.
abbrev pub default_action : ℕ → Table → Handled
default_action s t =
    if s == sigsegv
    then exits (neg32 1) t
    else if s == sigfpe
    then exits (neg32 1) t
    else if s == sigint
    then exits 1 t
    else if s == sighup
    then exits 1 t
    else if s == sigquit
    then exits 1 t
    else if s == sigchld
    then returned 0 t
    else returned 0 (clear_current s t)

-- A handler of the process' own is not called: it is reset.
abbrev pub custom_action : ℕ → Table → Handled
custom_action s t =
    let reset = modify t.current (λ p. record p { sigfn = set p.sigfn s sig_dfl }) t in
    returned 0 (if s == sigchld then reset else clear_current s reset)

unfoldable pub handle_signal : ℕ → Table → Handled
handle_signal s t =
    let fn = get_or (entry t t.current).sigfn s sig_dfl in
    if not (valid_signal s)
    then returned (neg32 4) t
    else if fn == sig_ign
    then returned 0 (clear_current s t)
    else if fn == sig_dfl
    then default_action s t
    else custom_action s t

abbrev pub do_signal : Table → Handled
do_signal t = handle_signal (dequeue_signal (entry t t.current).signal) t

-- PidToProcess, the slots from number `i` on.
unfoldable pub pid_to_process : ℕ → ℕ → List Process → Option ℕ
pid_to_process pid i [] = none
pid_to_process pid i (p ∷ ps) = if p.pid == pid then some i else pid_to_process pid (i + 1) ps

abbrev pub send : ℕ → ℕ → Table → Table
send s i t = modify i (λ p. record p { signal = set_signal p.signal s }) t

-- The loop over the siblings, which goes on at NULL, since that is not the list's head.
unfoldable pub signal_siblings : (rounds : ℕ) → ℕ → ℕ → ℕ → Option ℕ → Table → Exec Table
signal_siblings zero s head nb curp t = ok t
signal_siblings (suc rounds) s head nb none t = fault
signal_siblings (suc rounds) s head nb (some i) t =
    let sent = send s i t in
    let rest = signal_siblings rounds s head (suc nb) (entry t i).sibling_next sent in
    if i == head && not (nb == 0) then ok t else rest

abbrev with_code : ℕ → Exec Table → Exec (ℕ × Table)
with_code c (ok t) = ok (c, t)
with_code c panic = panic
with_code c fault = fault

abbrev kill_siblings : ℕ → Option ℕ → Table → Exec Table
kill_siblings s none t = ok t
kill_siblings s (some head) t = signal_siblings 12 s head 0 (some head) t

-- `pid` as a signed number: what is at least 2³¹ is negative.
unfoldable pub sys_kill : ℕ → ℕ → Table → Exec (ℕ × Table)
sys_kill pid s t =
    if ltb 1 pid && ltb pid 0x8000_0000
    then elim (pid_to_process pid 0 t.process_list) [
      | none ↦ ok (neg32 4, t)
      | some i ↦ if valid_signal s then ok (0, send s i t) else ok (neg32 4, t)
    ]
    else if pid == 0
    then ok (neg32 11, t)
    else if pid == neg32 1
    then with_code 0 (kill_siblings s (entry t t.current).sibling t)
    else ok (neg32 4, t)
