-- ===== src/Dev/Block/Registry.antt =====
-- The registry of block devices, core/dev/block/block.c.
use mathlib.Core.Path.{subst}
use haoud_os.Base.{
  ℕ, ◌≡◌, ◌≢◌, inl, inr, Bool, true, false, none, some, List, [], ◌∷◌, ◌==◌, neg32, arith, refl,
  sym, Bool-cases, Option-cases,
}
use haoud_os.Dev.Block.{
  Blockdev, Devices, find_dev, lookup_blockdev, blkdev_present, add_device, new_blockdev, enter,
  register_blockdev,
}

add_self :
    (i : ℕ) (b : Blockdev) (bs : List Blockdev)
    → b.dev_id ≡ i
    → find_dev i bs ≡ none
    → find_dev i (add_device b bs) ≡ some b
unfolding find_dev
add_self i b [] e absent = ground arith
add_self i b (head ∷ bs) e absent = ground arith

add_other :
    (i : ℕ) (b : Blockdev) (bs : List Blockdev)
    → b.dev_id ≢ i
    → find_dev i (add_device b bs) ≡ find_dev i bs
unfolding find_dev
add_other i b [] n = ground arith
add_other i b (head ∷ bs) n = ground arith

-- The device enters the registry, in which it is found from then on and every other device as before,
-- or nothing changes.
pub data Enters (i size blocks ops : ℕ) (s : Devices) : ℕ × Devices → Type 0 where
  entered :
      (u : Devices)
      → lookup_blockdev i s ≡ none
      → (size ≢ 0) × (blocks ≢ 0) × (ops ≢ 0)
      → lookup_blockdev i u ≡ some (new_blockdev s.last_id i size blocks ops)
      → ((j : ℕ) → j ≢ i → lookup_blockdev j u ≡ lookup_blockdev j s)
      → Enters i size blocks ops s (0, u)
  refused : (c : ℕ) → c ≢ 0 → Enters i size blocks ops s (c, s)

present :
    (i : ℕ) (s : Devices) (b : Blockdev) → lookup_blockdev i s ≡ some b → blkdev_present i s ≡ true
present i s b e = rw (blkdev_present, e) refl

absent : (i : ℕ) (s : Devices) → lookup_blockdev i s ≡ none → blkdev_present i s ≡ false
absent i s e = rw (blkdev_present, e) refl

Enters-new :
    (i size blocks ops : ℕ) (s : Devices)
    → lookup_blockdev i s ≡ none
    → (size == 0) ≡ false
    → (blocks == 0) ≡ false
    → (ops == 0) ≡ false
    → Enters i size blocks ops s (0, enter (new_blockdev s.last_id i size blocks ops) s)
Enters-new i size blocks ops s e hs hb ho =
    let b = new_blockdev s.last_id i size blocks ops in
    entered (enter b s) e (ground arith, ground arith, ground arith)
      (add_self i b s.blockdev_list refl e)
      (λ j n. add_other j b s.blockdev_list (λ same. n (sym same)))

checks :
    (memory : Bool) (i size blocks ops : ℕ) (s : Devices)
    → lookup_blockdev i s ≡ none
    → Enters i size blocks ops s (register_blockdev memory i size blocks ops s)
unfolding register_blockdev
checks memory i size blocks ops s e = elim (Bool-cases (size == 0)) [
  | inl y ↦ rw (absent i s e, y) (refused (neg32 4) (ground arith))
  | inr hs ↦ elim (Bool-cases (blocks == 0)) [
    | inl y ↦ rw (absent i s e, hs, y) (refused (neg32 4) (ground arith))
    | inr hb ↦ elim (Bool-cases (ops == 0)) [
      | inl y ↦ rw (absent i s e, hs, hb, y) (refused (neg32 4) (ground arith))
      | inr ho ↦ elim (Bool-cases memory) [
        | inl m ↦ rw (absent i s e, hs, hb, ho, m) (Enters-new i size blocks ops s e hs hb ho)
        | inr m ↦ rw (absent i s e, hs, hb, ho, m) (refused (neg32 10) (ground arith))
      ]
    ]
  ]
]

taken_id :
    (memory : Bool) (i size blocks ops : ℕ) (s : Devices) (b : Blockdev)
    → lookup_blockdev i s ≡ some b
    → register_blockdev memory i size blocks ops s ≡ (neg32 2, s)
unfolding register_blockdev
taken_id memory i size blocks ops s b e = rw (present i s b e) refl

-- A registration succeeds only for a number that is free and for sizes and operations that are there.
-- Then the device is found under its number, and every other number finds what it found before. A
-- registration that fails changes nothing.
pub register_blockdev_lem :
    (memory : Bool) (i size blocks ops : ℕ) (s : Devices)
    → Enters i size blocks ops s (register_blockdev memory i size blocks ops s)
register_blockdev_lem memory i size blocks ops s = elim (Option-cases (lookup_blockdev i s)) [
  | inl e ↦ checks memory i size blocks ops s e
  | inr (b, e) ↦
      subst (Enters i size blocks ops s) (sym (taken_id memory i size blocks ops s b e))
        (refused (neg32 2) (ground arith))
]
