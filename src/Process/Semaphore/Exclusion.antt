-- ===== src/Process/Semaphore/Exclusion.antt =====
-- Any interleaving of the semaphore's functions with the rest of the kernel.
use mathlib.Core.Path.{subst}
use haoud_os.Base.{
  ℕ, suc, ◌+◌, ◌<◌, ◌≤◌, ◌≡◌, ◌⊎◌, inl, inr, neg32, Exec, ok, panic, fault, arith, refl, sym, ap,
  ◌∙◌, Bool-cases,
}
use haoud_os.Process.Task.{Table}
use haoud_os.Process.Sleep.{unlink}
use haoud_os.Process.Semaphore.{
  Semaphore, is_free, up_semaphore, trydown_semaphore, Down, taken, sleeps, down_test, down_again,
}

-- The semaphore, the table, and how many have taken the semaphore and not given it back.
pub record Sys : Type 0 where
  pub sem : Semaphore
  pub table : Table
  pub held : ℕ

-- A step is a call of one of the functions, its end after a sleep, or anything that the rest of the
-- kernel does to the table. Only who holds the semaphore gives it back.
pub data Step (x : Sys) : Sys → Type 0 where
  downs :
      (i : ℕ) (s : Semaphore)
      → down_test i x.sem x.table ≡ taken s
      → Step x (record x { sem = s; held = suc x.held })
  falls_asleep :
      (i : ℕ) (s : Semaphore) (t : Table)
      → down_test i x.sem x.table ≡ sleeps s t
      → Step x (record x { sem = s; table = t })
  wakes_and_downs :
      (i : ℕ) (s : Semaphore)
      → down_again i x.sem x.table ≡ ok (taken s)
      → Step x (record x { sem = s; held = suc x.held })
  wakes_and_sleeps :
      (i : ℕ) (s : Semaphore) (t : Table)
      → down_again i x.sem x.table ≡ ok (sleeps s t)
      → Step x (record x { sem = s; table = t })
  tries :
      (s : Semaphore)
      → trydown_semaphore x.sem ≡ (0, s)
      → Step x (record x { sem = s; held = suc x.held })
  tries_in_vain :
      (s : Semaphore) → trydown_semaphore x.sem ≡ (neg32 2, s) → Step x (record x { sem = s })
  ups :
      (h : ℕ) (s : Semaphore) (t : Table)
      → x.held ≡ suc h
      → up_semaphore x.sem x.table ≡ (0, s, t)
      → Step x (record { sem = s; table = t; held = h })
  others : (t : Table) → Step x (record x { table = t })

pub data Steps : Sys → Sys → Type 0 where
  done : (x : Sys) → Steps x x
  next : (x y z : Sys) → Step x y → Steps y z → Steps x z

-- `n` places in all.
abbrev pub Balanced : ℕ → Sys → Type 0
Balanced n x = x.sem.value + x.held ≡ n

-- A down that succeeds takes one place; one that does not takes none.
abbrev Took : ℕ → Down → Type 0
Took v (taken s) = s.value + 1 ≡ v
Took v (sleeps s t) = s.value ≡ v

down_test-Took :
    (i : ℕ) (s : Semaphore) (t : Table) → s.value < 0x8000_0000 → Took s.value (down_test i s t)
unfolding down_test
down_test-Took i s t h = elim (Bool-cases (is_free s)) [
  | inl e ↦ let positive : 0 < s.value = ground arith in rw (e) (omega arith)
  | inr e ↦ rw (e) refl
]

down-Took :
    (i : ℕ) (s : Semaphore) (t : Table) (d : Down)
    → s.value < 0x8000_0000
    → down_test i s t ≡ d
    → Took s.value d
down-Took i s t d h e = subst (Took s.value) e (down_test-Took i s t h)

from_ok : Down → Exec Down → Down
from_ok d (ok x) = x
from_ok d panic = d
from_ok d fault = d

again-Took :
    (i : ℕ) (s : Semaphore) (t : Table) (d : Down)
    → s.value < 0x8000_0000
    → down_again i s t ≡ ok d
    → Took s.value d
unfolding down_again from_ok
again-Took i s t d h e = down-Took i (record s { wait = unlink i s.wait }) t d h (ap (from_ok d) e)

-- The two results of `trydown_semaphore`.
pub trydown_semaphore_lem :
    (s : Semaphore)
    → s.value < 0x8000_0000
    → let (c, s') = trydown_semaphore s in
      ((0 < s.value) × (c ≡ 0) × (s'.value + 1 ≡ s.value) × (s'.wait ≡ s.wait))
      ⊎ ((s.value ≡ 0) × (c ≡ neg32 2) × (s' ≡ s))
unfolding trydown_semaphore
trydown_semaphore_lem s h = elim (Bool-cases (is_free s)) [
  | inl e ↦
      let positive : 0 < s.value = ground arith in rw (e) (inl (positive, refl, omega arith, refl))
  | inr e ↦ rw (e) (inr (ground arith, refl, refl))
]

tried :
    (s : Semaphore) (s' : Semaphore)
    → s.value < 0x8000_0000
    → trydown_semaphore s ≡ (0, s')
    → s'.value + 1 ≡ s.value
tried s s' h e =
    let code = ap (λ r. r.0) e in
    let value = ap (λ r. r.1.value) e in
    elim (trydown_semaphore_lem s h) [
      | inl r ↦ omega (arith, r.2, value)
      | inr r ↦ absurd (omega (arith, r.1, code))
    ]

tried_in_vain :
    (s : Semaphore) (s' : Semaphore)
    → s.value < 0x8000_0000
    → trydown_semaphore s ≡ (neg32 2, s')
    → s'.value ≡ s.value
tried_in_vain s s' h e =
    let code = ap (λ r. r.0) e in
    elim (trydown_semaphore_lem s h) [
      | inl r ↦ absurd (omega (arith, r.1, code))
      | inr r ↦ ap Semaphore.value (ap (λ p. p.1) (sym e) ∙ r.2)
    ]

upped :
    (s s' : Semaphore) (t t' : Table)
    → s.value < 0x7fff_ffff
    → up_semaphore s t ≡ (0, s', t')
    → s'.value ≡ s.value + 1
unfolding up_semaphore
upped s s' t t' h e = omega (arith, ap (λ r. r.1.value) e)

pub Step-Balanced : (n : ℕ) (x y : Sys) → n < 0x8000_0000 → Step x y → Balanced n x → Balanced n y
Step-Balanced n x _ h (downs i s e) b =
    omega (arith, down-Took i x.sem x.table (taken s) (omega arith) e)
Step-Balanced n x _ h (falls_asleep i s t e) b =
    omega (arith, down-Took i x.sem x.table (sleeps s t) (omega arith) e)
Step-Balanced n x _ h (wakes_and_downs i s e) b =
    omega (arith, again-Took i x.sem x.table (taken s) (omega arith) e)
Step-Balanced n x _ h (wakes_and_sleeps i s t e) b =
    omega (arith, again-Took i x.sem x.table (sleeps s t) (omega arith) e)
Step-Balanced n x _ h (tries s e) b = omega (arith, tried x.sem s (omega arith) e)
Step-Balanced n x _ h (tries_in_vain s e) b = omega (arith, tried_in_vain x.sem s (omega arith) e)
Step-Balanced n x _ h (ups k s t e e') b = omega (arith, upped x.sem s x.table t (omega arith) e')
Step-Balanced n x _ h (others t) b = b

-- However the calls interleave, with each other and with any change of the process table, as long
-- as only who holds the semaphore gives it back: if the free places and those taken are `n` in all,
-- fewer than 2^31, they stay `n`, and never more than `n` are taken. So a semaphore of one place is
-- never held twice.
pub Steps-Balanced :
    (n : ℕ) (x y : Sys) → n < 0x8000_0000 → Steps x y → Balanced n x → Balanced n y × (y.held ≤ n)
Steps-Balanced n x _ h (done _) b = (b, omega arith)
Steps-Balanced n x z h (next _ y _ s r) b = Steps-Balanced n y z h r (Step-Balanced n x y h s b)
