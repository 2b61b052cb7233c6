-- ===== src/Stdlib/Memory.antt =====
-- memcpy and memset of lib/string.c, byte by byte.
use haoud_os.Base.{
  ℕ, zero, suc, ◌+◌, ◌<◌, ◌≤◌, ◌≡◌, ◌⊎◌, inl, List, get_or, set, length, length-set, get_or-set_ne,
  get_or-set_eq, arith, refl, sym, ap, ◌∙◌,
}
use haoud_os.Stdlib.{memcpy}

pub length-memcpy :
    (dst : List ℕ) (d : ℕ) (src : List ℕ) (s n : ℕ) → length (memcpy dst d src s n) ≡ length dst
unfolding memcpy
length-memcpy dst d src s zero = refl
length-memcpy dst d src s (suc n) =
    length-memcpy (set dst d (get_or src s 0)) (d + 1) src (s + 1) n
    ∙ length-set dst d (get_or src s 0)

pub memcpy-outside :
    (dst : List ℕ) (d : ℕ) (src : List ℕ) (s n i : ℕ)
    → (i < d) ⊎ (d + n ≤ i)
    → get_or (memcpy dst d src s n) i 0 ≡ get_or dst i 0
unfolding memcpy
memcpy-outside dst d src s zero i h = refl
memcpy-outside dst d src s (suc n) i h =
    memcpy-outside (set dst d (get_or src s 0)) (d + 1) src (s + 1) n i (ground arith)
    ∙ get_or-set_ne dst d i (get_or src s 0) 0 (ground arith)

pub memcpy-inside :
    (dst : List ℕ) (d : ℕ) (src : List ℕ) (s n : ℕ)
    → d + n ≤ length dst
    → (k : ℕ) → k < n
    → get_or (memcpy dst d src s n) (d + k) 0 ≡ get_or src (s + k) 0
unfolding memcpy
memcpy-inside dst d src s zero room k h = absurd (omega arith)
memcpy-inside dst d src s (suc n) room zero h =
    memcpy-outside (set dst d (get_or src s 0)) (d + 1) src (s + 1) n (d + 0) (inl (omega arith))
    ∙ get_or-set_eq dst d (d + 0) (get_or src s 0) 0 (omega arith) (omega arith)
    ∙ ap (λ i. get_or src i 0) (omega arith)
memcpy-inside dst d src s (suc n) room (suc k) h =
    ap (λ i. get_or (memcpy dst d src s (suc n)) i 0) (omega arith)
    ∙ memcpy-inside (set dst d (get_or src s 0)) (d + 1) src (s + 1) n
        (omega (arith, length-set dst d (get_or src s 0))) k (omega arith)
    ∙ ap (λ i. get_or src i 0) (omega arith)

-- The same with the positions as they are computed elsewhere.
pub memcpy_at :
    (dst : List ℕ) (d : ℕ) (src : List ℕ) (s n k i j : ℕ)
    → d + n ≤ length dst
    → k < n
    → d + k ≡ i
    → s + k ≡ j
    → get_or (memcpy dst d src s n) i 0 ≡ get_or src j 0
memcpy_at dst d src s n k i j room h e e' =
    ap (λ x. get_or (memcpy dst d src s n) x 0) (sym e)
    ∙ memcpy-inside dst d src s n room k h
    ∙ ap (λ x. get_or src x 0) e'
