-- ===== src/Dev/Urandom.antt =====
-- The device of pseudo-random bytes, core/dev/char/urandom.c.
use haoud_os.Base.{
  ℕ, zero, suc, ◌/◌, ◌%◌, ◌<◌, ◌≡◌, ap, List, [], ◌∷◌, ◌++◌, ◌+◌, get_or, add32, mul32, arith,
}

-- The next value of the file's `custom_data`, the seed.
abbrev pub next_seed : ℕ → ℕ
next_seed seed = add32 (mul32 seed 1_103_515_245) 12_345

-- The `len` bytes of a read, with the seed after it.
unfoldable pub urandom_read : (len : ℕ) → ℕ → List ℕ × ℕ
urandom_read zero seed = ([], seed)
urandom_read (suc len) seed =
    let next = next_seed seed in
    let rest = urandom_read len next in (next / 65_536 % 255 ∷ rest.0, rest.1)

-- Each byte of a read is one of 0 to 254.
pub urandom_read_below : (len i seed : ℕ) → get_or (urandom_read len seed).0 i 0 < 255
unfolding urandom_read
urandom_read_below zero i seed = omega arith
urandom_read_below (suc len) zero seed = omega arith
urandom_read_below (suc len) (suc i) seed = urandom_read_below len i (next_seed seed)

-- Two reads in a row return the bytes of one read of both lengths.
pub urandom_read_again :
    (m n seed : ℕ) (k : ℕ)
    → k ≡ m + n
    → (urandom_read k seed).0
      ≡ (urandom_read m seed).0 ++ (urandom_read n (urandom_read m seed).1).0
unfolding urandom_read
urandom_read_again zero n seed k e = ap (λ j. (urandom_read j seed).0) (omega (arith, e))
urandom_read_again (suc m) n seed zero e = absurd (omega arith)
urandom_read_again (suc m) n seed (suc k) e =
    ap (◌∷◌ (next_seed seed / 65_536 % 255))
      (urandom_read_again m n (next_seed seed) k (omega arith))
