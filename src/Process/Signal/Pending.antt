-- ===== src/Process/Signal/Pending.antt =====
-- The signal word: which signal `dequeue_signal` takes, and what the macros do to a bit.
use haoud_os.Base.{
  ℕ, zero, suc, ◌+◌, ◌-◌, ◌<◌, ◌≤◌, ◌≡◌, ◌≢◌, inl, inr, Bool, true, false, List, [], ◌∷◌, length,
  get_or, get_or-set_self, get_or-set_ne, arith, refl, sym, ◌∙◌, Bool-cases, true≢false,
  decide_equal, three_way,
}
use haoud_os.Process.Task.{any}
use haoud_os.Process.Signal.{set_signal, clear_signal, has_signal, first_signal, dequeue_signal}

-- No signal from `i` to `n - 1` is pending.
abbrev pub NonePending : List Bool → ℕ → ℕ → Type 0
NonePending var i n = (k : ℕ) → i ≤ k → k < n → has_signal var k ≡ false

-- What the search from `i` to `n - 1` returns.
pub data Lowest (var : List Bool) (i n : ℕ) : ℕ → Type 0 where
  absent : NonePending var i n → Lowest var i n 0
  lowest :
      (s : ℕ) → i ≤ s → s < n → has_signal var s ≡ true → NonePending var i s → Lowest var i n s

none_at : (var : List Bool) (i : ℕ) → NonePending var i i
none_at var i k h h' = absurd (omega arith)

none_more :
    (var : List Bool) (i n : ℕ)
    → has_signal var i ≡ false
    → NonePending var (i + 1) n
    → NonePending var i n
none_more var i n e none k h h' = elim (decide_equal i k) [
  | inl same ↦ rw (sym same) e
  | inr other ↦ none k (omega arith) h'
]

Lowest-more :
    (var : List Bool) (i n m s : ℕ)
    → m ≡ n
    → has_signal var i ≡ false
    → Lowest var (i + 1) n s
    → Lowest var i m s
Lowest-more var i n m _ em e (absent none) =
    absent (λ k h h'. none_more var i n e none k h (omega arith))
Lowest-more var i n m _ em e (lowest s h h' has none) =
    lowest s (omega arith) (omega arith) has (none_more var i s e none)

first_signal_lem :
    (rounds i : ℕ) (var : List Bool) → Lowest var i (i + rounds) (first_signal rounds i var)
unfolding first_signal
first_signal_lem zero i var = absent (λ k h h'. absurd (omega arith))
first_signal_lem (suc rounds) i var = elim (Bool-cases (has_signal var i)) [
  | inl e ↦ rw (e) (lowest i (omega arith) (omega arith) e (none_at var i))
  | inr e ↦ rw (e) (
      Lowest-more var i (i + 1 + rounds) (i + suc rounds) (first_signal rounds (i + 1) var)
        (omega arith) e (first_signal_lem rounds (i + 1) var))
]

pub any-false : (bs : List Bool) (k : ℕ) → any bs ≡ false → get_or bs k false ≡ false
any-false [] k e = refl
any-false (false ∷ bs) zero e = refl
any-false (true ∷ bs) zero e = absurd (ground arith)
any-false (false ∷ bs) (suc k) e = any-false bs k e
any-false (true ∷ bs) (suc k) e = absurd (ground arith)

-- The lowest of the signals 1 to 31 that is pending is taken, and 0 comes out if there is none.
pub dequeue_signal_lem : (var : List Bool) → Lowest var 1 32 (dequeue_signal var)
unfolding dequeue_signal
dequeue_signal_lem var = elim (Bool-cases (any var)) [
  | inl e ↦ rw (e) (first_signal_lem 31 1 var)
  | inr e ↦ rw (e) (absent (λ k h h'. any-false var (k - 1) e))
]

-- It is the only one.
pub Lowest-unique :
    (var : List Bool) (i n s s' : ℕ)
    → 1 ≤ i
    → Lowest var i n s
    → i ≤ s'
    → s' < n
    → has_signal var s' ≡ true
    → NonePending var i s'
    → s ≡ s'
Lowest-unique var i n _ s' hi (absent none) h h' has none' =
    absurd (true≢false (sym has ∙ none s' h h'))
Lowest-unique var i n _ s' hi (lowest s a b has' none) h h' has none' = elim (three_way s s') [
  | inl e ↦ e
  | inr (inl l) ↦ absurd (true≢false (sym has' ∙ none' s a l))
  | inr (inr l) ↦ absurd (true≢false (sym has ∙ none s' h l))
]

pub has-clear :
    (var : List Bool) (s : ℕ) → 1 ≤ s → s ≤ length var → has_signal (clear_signal var s) s ≡ false
has-clear var s h h' = get_or-set_self var (s - 1) false false (omega arith)

pub has-set :
    (var : List Bool) (s : ℕ) → 1 ≤ s → s ≤ length var → has_signal (set_signal var s) s ≡ true
has-set var s h h' = get_or-set_self var (s - 1) true false (omega arith)

pub has-clear_ne :
    (var : List Bool) (s k : ℕ)
    → 1 ≤ s
    → 1 ≤ k
    → s ≢ k
    → has_signal (clear_signal var s) k ≡ has_signal var k
has-clear_ne var s k h h' n = get_or-set_ne var (s - 1) (k - 1) false false (λ e. n (omega arith))

pub has-set_ne :
    (var : List Bool) (s k : ℕ)
    → 1 ≤ s
    → 1 ≤ k
    → s ≢ k
    → has_signal (set_signal var s) k ≡ has_signal var k
has-set_ne var s k h h' n = get_or-set_ne var (s - 1) (k - 1) true false (λ e. n (omega arith))
