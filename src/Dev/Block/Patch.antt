-- ===== src/Dev/Block/Patch.antt =====
-- The contents of a device after bytes of a buffer are put at a position.
use haoud_os.Base.{
  ℕ, ◌+◌, ◌-◌, ◌<◌, ◌≤◌, ◌≡◌, ◌⊎◌, inl, inr, true, false, ◌&&◌, List, get_or, length, ltb, leb,
  if◌then◌else◌, arith, refl, sym, ap, ◌∙◌,
}
use haoud_os.Stdlib.{memcpy}
use haoud_os.Stdlib.Memory.{memcpy-inside, memcpy-outside}

-- The contents `d` with `n` bytes at position `o` from index `at` of the buffer.
abbrev pub patched : (ℕ → ℕ) → ℕ → ℕ → List ℕ → ℕ → ℕ → ℕ
patched d o n buf at p = if leb o p && ltb p (o + n) then get_or buf (at + (p - o)) 0 else d p

pub patched_in :
    (d : ℕ → ℕ) (o n : ℕ) (buf : List ℕ) (at p : ℕ)
    → o ≤ p
    → p < o + n
    → patched d o n buf at p ≡ get_or buf (at + (p - o)) 0
patched_in d o n buf at p h h' =
    let e : (leb o p && ltb p (o + n)) ≡ true = ground arith in rw (e) refl

pub patched_out :
    (d : ℕ → ℕ) (o n : ℕ) (buf : List ℕ) (at p : ℕ)
    → (p < o) ⊎ (o + n ≤ p)
    → patched d o n buf at p ≡ d p
patched_out d o n buf at p h =
    let e : (leb o p && ltb p (o + n)) ≡ false = ground arith in rw (e) refl

pub where_is : (o n p : ℕ) → ((o ≤ p) × (p < o + n)) ⊎ ((p < o) ⊎ (o + n ≤ p))
where_is o n p = ground arith

pub patched_twice :
    (d d' : ℕ → ℕ) (o n m : ℕ) (buf : List ℕ) (at : ℕ)
    → ((p : ℕ) → d' p ≡ patched d o n buf at p)
    → (p : ℕ) → patched d' (o + n) m buf (at + n) p ≡ patched d o (n + m) buf at p
patched_twice d d' o n m buf at first p = elim (where_is (o + n) m p) [
  | inl (h, h') ↦
      patched_in d' (o + n) m buf (at + n) p h h'
      ∙ ap (λ i. get_or buf i 0) (omega arith)
      ∙ sym (patched_in d o (n + m) buf at p (omega arith) (omega arith))
  | inr out ↦ patched_out d' (o + n) m buf (at + n) p out ∙ first p ∙ elim (where_is o n p) [
    | inl (h, h') ↦
        patched_in d o n buf at p h h'
        ∙ sym (patched_in d o (n + m) buf at p (omega arith) (omega arith))
    | inr out' ↦
        patched_out d o n buf at p out' ∙ sym (patched_out d o (n + m) buf at p (ground arith))
  ]
]

-- A block read into a buffer and changed in part.
pub memcpy-patched :
    (d : ℕ → ℕ) (start size : ℕ) (base : List ℕ) (o : ℕ) (buf : List ℕ) (at n : ℕ)
    → length base ≡ size
    → ((i : ℕ) → i < size → get_or base i 0 ≡ d (start + i))
    → o + n ≤ size
    → (i : ℕ) → i < size
    → get_or (memcpy base o buf at n) i 0 ≡ patched d (start + o) n buf at (start + i)
memcpy-patched d start size base o buf at n len holds room i h = elim (where_is o n i) [
  | inl (a, b) ↦
      ap (λ j. get_or (memcpy base o buf at n) j 0) (omega arith)
      ∙ memcpy-inside base o buf at n (omega arith) (i - o) (omega arith)
      ∙ ap (λ j. get_or buf j 0) (omega arith)
      ∙ sym (patched_in d (start + o) n buf at (start + i) (omega arith) (omega arith))
  | inr out ↦
      memcpy-outside base o buf at n i out
      ∙ holds i h
      ∙ sym (patched_out d (start + o) n buf at (start + i) (ground arith))
]

-- A block written whole, of which only a part changes.
pub patched_block :
    (d : ℕ → ℕ) (start size o n : ℕ) (filled buf : List ℕ) (at : ℕ)
    → start ≤ o
    → o + n ≤ start + size
    → ((i : ℕ) → i < size → get_or filled i 0 ≡ patched d o n buf at (start + i))
    → (p : ℕ) → patched d start size filled 0 p ≡ patched d o n buf at p
patched_block d start size o n filled buf at low high fills p = elim (where_is start size p) [
  | inl (h, h') ↦
      patched_in d start size filled 0 p h h'
      ∙ ap (λ i. get_or filled i 0) (omega arith)
      ∙ fills (p - start) (omega arith)
      ∙ ap (patched d o n buf at) (omega arith)
  | inr out ↦
      patched_out d start size filled 0 p out ∙ sym (patched_out d o n buf at p (ground arith))
]
