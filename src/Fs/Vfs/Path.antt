-- ===== src/Fs/Vfs/Path.antt =====
-- The lengths of the parts of a path.
use haoud_os.Base.{
  ℕ, ◌<◌, ◌≤◌, ◌≡◌, inl, inr, false, List, [], ◌∷◌, length, get_or, ◌==◌, arith, Bool-cases,
}
use haoud_os.Fs.Vfs.{skip_separators, behind_name, ends_name}

pub length-skip_separators : (path : List ℕ) → length (skip_separators path) ≤ length path
unfolding skip_separators
length-skip_separators [] = omega arith
length-skip_separators (c ∷ path) = elim (Bool-cases (c == 92)) [
  | inl y ↦ rw (y) (omega (arith, length-skip_separators path))
  | inr y ↦ rw (y) (omega arith)
]

pub length-behind_name : (path : List ℕ) → length (behind_name path) ≤ length path
unfolding behind_name
length-behind_name [] = omega arith
length-behind_name (c ∷ path) = elim (Bool-cases (ends_name c)) [
  | inl y ↦ rw (y) (omega arith)
  | inr y ↦ rw (y) (omega (arith, length-behind_name path))
]

-- A path without separators in front that is not at its end begins with a name.
pub name_taken :
    (path : List ℕ)
    → (get_or (skip_separators path) 0 0 == 0) ≡ false
    → length (behind_name (skip_separators path)) < length path
unfolding skip_separators behind_name
name_taken [] h = absurd (ground arith)
name_taken (c ∷ path) h = elim (Bool-cases (c == 92)) [
  | inl y ↦
      rw (y) (omega (arith, length-behind_name (skip_separators path), length-skip_separators path))
  | inr y ↦
      let c0 : (c == 0) ≡ false = rw (y) at h in
      rw (y, y, c0) (omega (arith, length-behind_name path))
]
