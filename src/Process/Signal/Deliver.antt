-- ===== src/Process/Signal/Deliver.antt =====
-- handle_signal and do_signal: what a pending signal leads to.
use haoud_os.Base.{
  ℕ, ◌<◌, ◌≤◌, ◌≡◌, ◌≢◌, inl, inr, Bool, true, false, not, ◌&&◌, ◌||◌, List, ◌==◌, length, get_or,
  set, neg32, arith, refl, ap, ◌∙◌, Bool-cases,
}
use haoud_os.Process.Task.{Process, Table, entry, size, modify, entry-modify_self, size-modify}
use haoud_os.Process.Signal.{
  clear_signal, has_signal, valid_signal, sighup, sigint, sigquit, sigfpe, sigsegv, sigchld,
  sig_dfl, sig_ign, dequeue_signal, Handled, returned, exits, clear_current, handle_signal,
  do_signal,
}
use haoud_os.Process.Signal.Pending.{
  NonePending, dequeue_signal_lem, Lowest-unique, has-clear, has-clear_ne,
}

abbrev pub ends : Handled → Bool
ends (exits c t) = true
ends (returned c t) = false

-- The signals whose default action ends the process.
abbrev pub is_fatal : ℕ → Bool
is_fatal s = s == sigsegv || (s == sigfpe || (s == sigint || s == sigquit))

abbrev pub handler : ℕ → Table → ℕ
handler s t = get_or (entry t t.current).sigfn s sig_dfl

-- Only SIGINT, SIGQUIT, SIGFPE and SIGSEGV end a process, and these do so under the default action
-- and no other. SIGKILL, SIGTERM and all other signals never do.
pub handle_signal-ends :
    (s : ℕ) (t : Table) → ends (handle_signal s t) ≡ (is_fatal s && handler s t == sig_dfl)
unfolding handle_signal
handle_signal-ends s t = ground arith

abbrev pub word : Table → List Bool
word t = (entry t t.current).signal

-- The signals that a call takes out of the word without ending the process.
abbrev pub is_cleared : ℕ → Table → Bool
is_cleared s t =
    valid_signal s
    && (handler s t == sig_ign
        || (not (s == sigchld) && (not (handler s t == sig_dfl) || not (is_fatal s))))

abbrev reset : ℕ → Process → Process
reset s p = record p { sigfn = set p.sigfn s sig_dfl }

module _ (s : ℕ) (t : Table) (valid : valid_signal s ≡ true) where
  ignored : (handler s t == sig_ign) ≡ true → handle_signal s t ≡ returned 0 (clear_current s t)
  unfolding handle_signal
  ignored e = ground arith

  by_default :
      (handler s t == sig_dfl) ≡ true
      → is_fatal s ≡ false
      → (s == sigchld) ≡ false
      → handle_signal s t ≡ returned 0 (clear_current s t)
  unfolding handle_signal
  by_default e nf nc = ground arith

  custom :
      (handler s t == sig_ign) ≡ false
      → (handler s t == sig_dfl) ≡ false
      → (s == sigchld) ≡ false
      → handle_signal s t ≡ returned 0 (clear_current s (modify t.current (reset s) t))
  unfolding handle_signal
  custom ni nd nc = rw (valid, ni, nd, nc) refl

-- The call returns, and the word afterwards is that before with signal `s` cleared.
abbrev pub Clears : ℕ → Table → Handled → Type 0
Clears s t h = (u : Table) × (h ≡ returned 0 u) × (word u ≡ clear_signal (word t) s)

cleared_word :
    (s : ℕ) (t : Table) → t.current < size t → word (clear_current s t) ≡ clear_signal (word t) s
cleared_word s t h =
    ap Process.signal
      (entry-modify_self t.current (λ p. record p { signal = clear_signal p.signal s }) t h)

word-reset : (s : ℕ) (t : Table) → t.current < size t → word (modify t.current (reset s) t) ≡ word t
word-reset s t h = ap Process.signal (entry-modify_self t.current (reset s) t h)

reset_clears :
    (s : ℕ) (t : Table)
    → t.current < size t
    → word (clear_current s (modify t.current (reset s) t)) ≡ clear_signal (word t) s
reset_clears s t h =
    let u = modify t.current (reset s) t in
    cleared_word s u (omega (arith, size-modify t.current (reset s) t))
    ∙ ap (λ w. clear_signal w s) (word-reset s t h)

handle_signal-Clears :
    (s : ℕ) (t : Table)
    → t.current < size t
    → is_cleared s t ≡ true
    → Clears s t (handle_signal s t)
handle_signal-Clears s t h c =
    let valid : valid_signal s ≡ true = ground arith in
    elim (Bool-cases (handler s t == sig_ign)) [
      | inl i ↦ (clear_current s t, ignored s t valid i, cleared_word s t h)
      | inr ni ↦
          let not_child : (s == sigchld) ≡ false = ground arith in
          elim (Bool-cases (handler s t == sig_dfl)) [
            | inl d ↦ (
              clear_current s t,
              by_default s t valid d (ground arith) not_child,
              cleared_word s t h,
            )
            | inr nd ↦ (
              clear_current s (modify t.current (reset s) t),
              custom s t valid ni nd not_child,
              reset_clears s t h,
            )
          ]
    ]

-- For a current process in the table, with 32 signal bits: the next signal, if it is one that a
-- call clears (valid, and ignored, or not SIGCHLD and not ending the process), is taken out of the
-- word, all others stay, and the process goes on.
pub do_signal_lem :
    (t : Table)
    → t.current < size t
    → length (word t) ≡ 32
    → is_cleared (dequeue_signal (word t)) t ≡ true
    → let s = dequeue_signal (word t) in
      (u : Table) × (do_signal t ≡ returned 0 u)
      × (has_signal (word u) s ≡ false)
      × ((k : ℕ) → 1 ≤ k → s ≢ k → has_signal (word u) k ≡ has_signal (word t) k)
do_signal_lem t h len c =
    let s = dequeue_signal (word t) in
    let valid : (1 < s) × (s < 32) = (ground arith, ground arith) in
    let (u, e, w) = handle_signal-Clears s t h c in
    (
      u,
      e,
      rw (w) (has-clear (word t) s (omega arith) (omega arith)),
      λ k hk n. rw (w) (has-clear_ne (word t) s k (omega arith) hk n),
    )

-- A pending SIGHUP is refused as an invalid signal and stays pending, so no other is ever taken.
pub do_signal_hup :
    (t : Table) → has_signal (word t) sighup ≡ true → do_signal t ≡ returned (neg32 4) t
unfolding handle_signal
do_signal_hup t has =
    let first =
      Lowest-unique (word t) 1 32 (dequeue_signal (word t)) 1 (omega arith)
        (dequeue_signal_lem (word t)) (omega arith) (omega arith) has
        (λ k h h'. absurd (omega arith)) in
    rw (first) refl

-- A pending SIGCHLD under its default action stays pending, so no higher signal is ever taken.
pub do_signal_chld :
    (t : Table)
    → has_signal (word t) sigchld ≡ true
    → NonePending (word t) 1 sigchld
    → handler sigchld t ≡ sig_dfl
    → do_signal t ≡ returned 0 t
unfolding handle_signal
do_signal_chld t has none d =
    let first =
      Lowest-unique (word t) 1 32 (dequeue_signal (word t)) 17 (omega arith)
        (dequeue_signal_lem (word t)) (omega arith) (omega arith) has none in
    rw (first, d) refl
