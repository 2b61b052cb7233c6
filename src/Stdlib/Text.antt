-- ===== src/Stdlib/Text.antt =====
-- The text of a memory block: what stands before its first zero byte.
use haoud_os.Base.{
  ℕ, suc, ◌<◌, ◌≡◌, inl, inr, true, false, List, [], ◌∷◌, length, get_or, drop, true≢false, ◌==◌,
  if◌then◌else◌, refl, ap, Bool-cases,
}
use haoud_os.Stdlib.{strlen}

abbrev pub text : List ℕ → List ℕ
text [] = []
text (c ∷ s) = if c == 0 then [] else c ∷ text s

-- Every cell holds a byte.
abbrev pub Bytes : List ℕ → Type 0
Bytes s = (i : ℕ) → get_or s i 0 < 256

pub Bytes-tail : (c : ℕ) (s : List ℕ) → Bytes (c ∷ s) → Bytes s
Bytes-tail c s h i = h (suc i)

pub text-nil : (c : ℕ) (s : List ℕ) → (c == 0) ≡ true → text (c ∷ s) ≡ []
text-nil c s e = rw (e) refl

pub text-cons : (c : ℕ) (s : List ℕ) → (c == 0) ≡ false → text (c ∷ s) ≡ c ∷ text s
text-cons c s e = rw (e) refl

pub length-text : (s : List ℕ) → length (text s) ≡ strlen s
unfolding strlen
length-text [] = refl
length-text (c ∷ s) = elim (Bool-cases (c == 0)) [
  | inl e ↦ rw (e) refl
  | inr e ↦ rw (e) (ap suc (length-text s))
]

pub text-end : (s : List ℕ) → (get_or s 0 0 == 0) ≡ true → text s ≡ []
text-end [] e = refl
text-end (c ∷ s) e = text-nil c s e

pub text-head : (s : List ℕ) → (get_or s 0 0 == 0) ≡ false → text s ≡ get_or s 0 0 ∷ text (drop 1 s)
text-head [] e = absurd (true≢false e)
text-head (c ∷ s) e = text-cons c s e

pub Bytes-drop : (s : List ℕ) → Bytes s → Bytes (drop 1 s)
Bytes-drop [] h = h
Bytes-drop (c ∷ s) h = Bytes-tail c s h
