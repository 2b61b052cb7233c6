-- ===== src/Dev/Block/Bytes.antt =====
-- The contents of a device as a function from the position to the byte.
use haoud_os.Base.{
  ℕ, zero, suc, ◌+◌, ◌-◌, ◌≤◌, ◌≡◌, List, [], ◌∷◌, ◌++◌, take, drop, ◌<◌, length, get_or, arith,
  refl, ap, ◌∙◌,
}

-- The `n` bytes from position `s` on.
unfoldable pub bytes : (ℕ → ℕ) → ℕ → ℕ → List ℕ
bytes d s zero = []
bytes d s (suc n) = d s ∷ bytes d (s + 1) n

same_start : (d : ℕ → ℕ) (s s' n : ℕ) → s ≡ s' → bytes d s n ≡ bytes d s' n
same_start d s s' n e = ap (λ x. bytes d x n) e

pub same_bytes : (d : ℕ → ℕ) (s n n' : ℕ) → n ≡ n' → bytes d s n ≡ bytes d s n'
same_bytes d s n n' e = ap (bytes d s) e

pub bytes-append : (d : ℕ → ℕ) (s n m : ℕ) → bytes d s n ++ bytes d (s + n) m ≡ bytes d s (n + m)
unfolding bytes
bytes-append d s zero m =
    same_start d (s + 0) s m (omega arith) ∙ same_bytes d s m (0 + m) (omega arith)
bytes-append d s (suc n) m =
    ap (◌∷◌ (d s)) (
      ap (λ x. bytes d (s + 1) n ++ x) (same_start d (s + suc n) (s + 1 + n) m (omega arith))
      ∙ bytes-append d (s + 1) n m)
    ∙ same_bytes d s (suc (n + m)) (suc n + m) (omega arith)

pub take-bytes : (d : ℕ → ℕ) (s n m : ℕ) → n ≤ m → take n (bytes d s m) ≡ bytes d s n
unfolding bytes
take-bytes d s zero m h = refl
take-bytes d s (suc n) zero h = absurd (omega arith)
take-bytes d s (suc n) (suc m) h = ap (◌∷◌ (d s)) (take-bytes d (s + 1) n m (omega arith))

pub drop-bytes : (d : ℕ → ℕ) (s k n : ℕ) → drop k (bytes d s (k + n)) ≡ bytes d (s + k) n
unfolding bytes
drop-bytes d s zero n =
    same_bytes d s (0 + n) n (omega arith) ∙ same_start d s (s + 0) n (omega arith)
drop-bytes d s (suc k) n =
    ap (drop (suc k)) (same_bytes d s (suc k + n) (suc (k + n)) (omega arith))
    ∙ drop-bytes d (s + 1) k n
    ∙ same_start d (s + 1 + k) (s + suc k) n (omega arith)

-- A part of a block.
pub slice-bytes :
    (d : ℕ → ℕ) (s k n m : ℕ)
    → k + n ≤ m
    → (r : ℕ) → s + k ≡ r
    → take n (drop k (bytes d s m)) ≡ bytes d r n
slice-bytes d s k n m h r e =
    ap (λ x. take n (drop k x)) (same_bytes d s m (k + (m - k)) (omega arith))
    ∙ ap (take n) (drop-bytes d s k (m - k))
    ∙ take-bytes d (s + k) n (m - k) (omega arith)
    ∙ same_start d (s + k) r n e

pub length-bytes : (d : ℕ → ℕ) (s n : ℕ) → length (bytes d s n) ≡ n
unfolding bytes
length-bytes d s zero = refl
length-bytes d s (suc n) = ap suc (length-bytes d (s + 1) n)

pub get_or-bytes : (d : ℕ → ℕ) (s n k : ℕ) → k < n → get_or (bytes d s n) k 0 ≡ d (s + k)
unfolding bytes
get_or-bytes d s zero k h = absurd (omega arith)
get_or-bytes d s (suc n) zero h = ap d (omega arith)
get_or-bytes d s (suc n) (suc k) h = get_or-bytes d (s + 1) n k (omega arith) ∙ ap d (omega arith)
