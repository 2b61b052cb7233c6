-- ===== src/Base/Slices.antt =====
-- Parts of lists by position: what they hold, and lists that hold the same.
use Prim.Native.Nat.{ℕ, zero, suc, ◌+◌, ◌-◌, ◌<◌, ◌≤◌}
use mathlib.Core.Path.{◌≡◌, refl, sym, ap, ◌∙◌}
use mathlib.Core.List.{List, [], ◌∷◌, ◌++◌}
use native.Mathlib.Omega.{arith}
use haoud_os.Base.Lists.{length, get_or, take, drop}

module _ {ℓ} {A : Type ℓ} where
  pub length-take : (n : ℕ) (xs : List A) → n ≤ length xs → length (take n xs) ≡ n
  length-take zero xs h = refl
  length-take (suc n) [] h = absurd (omega arith)
  length-take (suc n) (x ∷ xs) h = ap suc (length-take n xs (omega arith))

  -- The smaller of the number and the length.
  pub length-take_all : (n : ℕ) (xs : List A) → length (take n xs) ≡ n - (n - length xs)
  length-take_all zero xs = omega arith
  length-take_all (suc n) [] = omega arith
  length-take_all (suc n) (x ∷ xs) = omega (arith, length-take_all n xs)

  pub take_all : (n : ℕ) (xs : List A) → length xs ≤ n → take n xs ≡ xs
  take_all zero [] h = refl
  take_all zero (x ∷ xs) h = absurd (omega arith)
  take_all (suc n) [] h = refl
  take_all (suc n) (x ∷ xs) h = ap (◌∷◌ x) (take_all n xs (omega arith))

  pub length-drop : (n : ℕ) (xs : List A) → length (drop n xs) ≡ length xs - n
  length-drop zero xs = omega arith
  length-drop (suc n) [] = omega arith
  length-drop (suc n) (x ∷ xs) = length-drop n xs ∙ omega arith

  pub get_or-take : (n k : ℕ) (xs : List A) (d : A) → k < n → get_or (take n xs) k d ≡ get_or xs k d
  get_or-take zero k xs d h = absurd (omega arith)
  get_or-take (suc n) k [] d h = refl
  get_or-take (suc n) zero (x ∷ xs) d h = refl
  get_or-take (suc n) (suc k) (x ∷ xs) d h = get_or-take n k xs d (omega arith)

  pub get_or-drop :
      (n k i : ℕ) (xs : List A) (d : A) → n + k ≡ i → get_or (drop n xs) k d ≡ get_or xs i d
  get_or-drop zero k i xs d e = ap (λ j. get_or xs j d) (omega arith)
  get_or-drop (suc n) k i [] d e = refl
  get_or-drop (suc n) k zero (x ∷ xs) d e = absurd (omega arith)
  get_or-drop (suc n) k (suc i) (x ∷ xs) d e = get_or-drop n k i xs d (omega arith)

  pub get_or-append_left :
      (xs ys : List A) (k : ℕ) (d : A) → k < length xs → get_or (xs ++ ys) k d ≡ get_or xs k d
  get_or-append_left [] ys k d h = absurd (omega arith)
  get_or-append_left (x ∷ xs) ys zero d h = refl
  get_or-append_left (x ∷ xs) ys (suc k) d h = get_or-append_left xs ys k d (omega arith)

  pub get_or-append_right :
      (xs ys : List A) (k i : ℕ) (d : A) → length xs + k ≡ i → get_or (xs ++ ys) i d ≡ get_or ys k d
  get_or-append_right [] ys k i d e = ap (λ j. get_or ys j d) (omega arith)
  get_or-append_right (x ∷ xs) ys k zero d e = absurd (omega arith)
  get_or-append_right (x ∷ xs) ys k (suc i) d e = get_or-append_right xs ys k i d (omega arith)

  -- Lists of a length that hold the same at every position are equal.
  pub same_entries :
      (d : A) (xs ys : List A)
      → length xs ≡ length ys
      → ((k : ℕ) → k < length xs → get_or xs k d ≡ get_or ys k d)
      → xs ≡ ys
  same_entries d [] [] l e = refl
  same_entries d [] (y ∷ ys) l e = absurd (omega arith)
  same_entries d (x ∷ xs) [] l e = absurd (omega arith)
  same_entries d (x ∷ xs) (y ∷ ys) l e =
      ap (λ a. a ∷ xs) (e 0 (omega arith))
      ∙ ap (◌∷◌ y) (same_entries d xs ys (omega arith) (λ k h. e (suc k) (omega arith)))

  -- A part of a beginning of a list is the part of the list that is in it.
  pub take-drop-take :
      (d : A) (n o m size : ℕ) (xs : List A)
      → size ≤ length xs
      → m ≡ n - (n - (size - o))
      → take n (drop o (take size xs)) ≡ take m (drop o xs)
  take-drop-take d n o m size xs h e =
      let part = drop o (take size xs) in
      let len : length part ≡ size - o =
        length-drop o (take size xs) ∙ ap (λ k. k - o) (length-take size xs h) in
      let short : length (take n part) ≡ m = omega (arith, length-take_all n part, len) in
      same_entries d (take n part) (take m (drop o xs))
        (short ∙ sym (length-take m (drop o xs) (omega (arith, length-drop o xs))))
        (λ k l.
          get_or-take n k part d (omega (arith, l, short))
          ∙ get_or-drop o k (o + k) (take size xs) d refl
          ∙ get_or-take size (o + k) xs d (omega (arith, l, short))
          ∙ sym (get_or-drop o k (o + k) xs d refl)
          ∙ sym (get_or-take m k (drop o xs) d (omega (arith, l, short))))

  pub drop-append : (n : ℕ) (xs ys : List A) → n ≡ length xs → drop n (xs ++ ys) ≡ ys
  drop-append zero [] ys e = refl
  drop-append zero (x ∷ xs) ys e = absurd (omega arith)
  drop-append (suc n) [] ys e = absurd (omega arith)
  drop-append (suc n) (x ∷ xs) ys e = drop-append n xs ys (omega arith)

  pub take-append : (n : ℕ) (xs ys : List A) → n ≡ length xs → take n (xs ++ ys) ≡ xs
  take-append zero [] ys e = refl
  take-append zero (x ∷ xs) ys e = absurd (omega arith)
  take-append (suc n) [] ys e = absurd (omega arith)
  take-append (suc n) (x ∷ xs) ys e = ap (◌∷◌ x) (take-append n xs ys (omega arith))
