-- ===== src/Base/Lists.antt =====
-- C arrays as lists with native indices, under the library's names.
use Prim.Native.Nat.{ℕ, zero, suc, ◌+◌, ◌<◌, ◌≤◌}
use mathlib.Core.Path.{◌≡◌, refl, sym, ap}
use mathlib.Core.Logic.{◌≢◌}
use mathlib.Core.List.{List, [], ◌∷◌, ◌++◌}
use mathlib.Core.Option.{Option, none, some}
use native.Mathlib.Omega.{arith}

module _ {ℓ} {A : Type ℓ} where
  abbrev pub length : List A → ℕ
  length [] = 0
  length (x ∷ xs) = suc (length xs)

  abbrev pub get_elem? : List A → ℕ → Option A
  get_elem? [] i = none
  get_elem? (x ∷ xs) zero = some x
  get_elem? (x ∷ xs) (suc i) = get_elem? xs i

  abbrev pub get_or : List A → ℕ → A → A
  get_or [] i d = d
  get_or (x ∷ xs) zero d = x
  get_or (x ∷ xs) (suc i) d = get_or xs i d

  -- A write out of bounds changes nothing.
  abbrev pub set : List A → ℕ → A → List A
  set [] i v = []
  set (x ∷ xs) zero v = v ∷ xs
  set (x ∷ xs) (suc i) v = x ∷ set xs i v

  abbrev pub take : ℕ → List A → List A
  take zero xs = []
  take (suc n) [] = []
  take (suc n) (x ∷ xs) = x ∷ take n xs

  abbrev pub drop : ℕ → List A → List A
  drop zero xs = xs
  drop (suc n) [] = []
  drop (suc n) (x ∷ xs) = drop n xs

  abbrev pub replicate : ℕ → A → List A
  replicate zero a = []
  replicate (suc n) a = a ∷ replicate n a

module _ {ℓ} {A : Type ℓ} where
  pub length-append : (xs ys : List A) → length (xs ++ ys) ≡ length xs + length ys
  length-append [] ys = omega arith
  length-append (x ∷ xs) ys = omega (arith, length-append xs ys)

  pub length-set : (xs : List A) (i : ℕ) (v : A) → length (set xs i v) ≡ length xs
  length-set [] i v = refl
  length-set (x ∷ xs) zero v = refl
  length-set (x ∷ xs) (suc i) v = ap suc (length-set xs i v)

  pub length-replicate : (n : ℕ) (a : A) → length (replicate n a) ≡ n
  length-replicate zero a = refl
  length-replicate (suc n) a = ap suc (length-replicate n a)

  pub get_or-replicate : (n k : ℕ) (a : A) → get_or (replicate n a) k a ≡ a
  get_or-replicate zero k a = refl
  get_or-replicate (suc n) zero a = refl
  get_or-replicate (suc n) (suc k) a = get_or-replicate n k a

  pub get_or-set_self :
      (xs : List A) (i : ℕ) (v d : A) → i < length xs → get_or (set xs i v) i d ≡ v
  get_or-set_self [] i v d h = elim h [ ]
  get_or-set_self (x ∷ xs) zero v d h = refl
  get_or-set_self (x ∷ xs) (suc i) v d h = get_or-set_self xs i v d (omega arith)

  pub get_or-set_ne :
      (xs : List A) (i j : ℕ) (v d : A) → i ≢ j → get_or (set xs i v) j d ≡ get_or xs j d
  get_or-set_ne [] i j v d h = refl
  get_or-set_ne (x ∷ xs) zero zero v d h = absurd (h refl)
  get_or-set_ne (x ∷ xs) zero (suc j) v d h = refl
  get_or-set_ne (x ∷ xs) (suc i) zero v d h = refl
  get_or-set_ne (x ∷ xs) (suc i) (suc j) v d h = get_or-set_ne xs i j v d (λ e. h (ap suc e))

  pub set-set : (xs : List A) (i : ℕ) (v w : A) → set (set xs i v) i w ≡ set xs i w
  set-set [] i v w = refl
  set-set (x ∷ xs) zero v w = refl
  set-set (x ∷ xs) (suc i) v w = ap (◌∷◌ x) (set-set xs i v w)

  -- A write of what an entry holds changes nothing.
  pub set-get_or :
      (xs : List A) (i : ℕ) (v d : A) → get_or xs i d ≡ v → i < length xs → set xs i v ≡ xs
  set-get_or [] i v d e h = refl
  set-get_or (x ∷ xs) zero v d e h = ap (λ a. a ∷ xs) (sym e)
  set-get_or (x ∷ xs) (suc i) v d e h = ap (◌∷◌ x) (set-get_or xs i v d e (omega arith))

  pub set_outside : (xs : List A) (i : ℕ) (v : A) → length xs ≤ i → set xs i v ≡ xs
  set_outside [] i v h = refl
  set_outside (x ∷ xs) zero v h = absurd (omega arith)
  set_outside (x ∷ xs) (suc i) v h = ap (◌∷◌ x) (set_outside xs i v (omega arith))

  pub get_or-set_eq :
      (xs : List A) (i j : ℕ) (v d : A) → i ≡ j → i < length xs → get_or (set xs i v) j d ≡ v
  get_or-set_eq xs i j v d e h = rw (sym e) (get_or-set_self xs i v d h)

  pub get_or_outside : (xs : List A) (i : ℕ) (d : A) → length xs ≤ i → get_or xs i d ≡ d
  get_or_outside [] i d h = refl
  get_or_outside (x ∷ xs) zero d h = absurd (omega arith)
  get_or_outside (x ∷ xs) (suc i) d h = get_or_outside xs i d (omega arith)

module _ {ℓ} {A : Type ℓ} (g : A → ℕ) where
  -- The sum of `g` over the list.
  abbrev pub total : List A → ℕ
  total [] = 0
  total (x ∷ xs) = g x + total xs

  pub total-set :
      (xs : List A) (i : ℕ) (v d : A)
      → i < length xs
      → total (set xs i v) + g (get_or xs i d) ≡ total xs + g v
  total-set [] i v d h = absurd (omega arith)
  total-set (x ∷ xs) zero v d h = omega arith
  total-set (x ∷ xs) (suc i) v d h = omega (arith, total-set xs i v d (omega arith))

  pub get_or-le_total : (xs : List A) (i : ℕ) (d : A) → i < length xs → g (get_or xs i d) ≤ total xs
  get_or-le_total [] i d h = absurd (omega arith)
  get_or-le_total (x ∷ xs) zero d h = omega arith
  get_or-le_total (x ∷ xs) (suc i) d h = omega (arith, get_or-le_total xs i d (omega arith))
