-- ===== src/Stdlib/Tests.antt =====
-- Small runs of the library functions.
use haoud_os.Base.{ℕ, ◌≡◌, List, [], ◌∷◌, refl}
use haoud_os.Stdlib.{strcmp, memcpy, atoi, atoi_from}

-- "ab" in a block of six bytes, and "cd".
abbrev block : List ℕ
block = 97 ∷ 98 ∷ 0 ∷ 1 ∷ 2 ∷ 3 ∷ []

abbrev second : List ℕ
second = 99 ∷ 100 ∷ 0 ∷ []

less : strcmp block second ≡ 0xffff_fffe
unfolding strcmp
less = refl

atoi_42 : atoi (52 ∷ 50 ∷ 120 ∷ []) ≡ 42
unfolding atoi_from
atoi_42 = refl

copied : memcpy block 1 second 0 2 ≡ 97 ∷ 99 ∷ 100 ∷ 1 ∷ 2 ∷ 3 ∷ []
unfolding memcpy
copied = refl
