-- ===== src/Stdlib/Print/Overrun.antt =====
-- `number` of lib/vsnprintf.c where the padding does not fit.
use haoud_os.Base.{
  ℕ, zero, suc, ◌-◌, ◌^◌, ◌<◌, ◌≤◌, ◌≡◌, false, [], ◌∷◌, ◌++◌, length, length-append, replicate,
  length-replicate, ◌==◌, if◌then◌else◌, sub32, arith, refl, ap,
}
use haoud_os.Stdlib.Print.{
  Flags, tmp_digits, pad, copy_back, sign_char, magnitude, positive, checked_base, number,
}
use haoud_os.Stdlib.Print.Digits.{length-tmp_digits}
use haoud_os.Stdlib.Print.Number.{
  padding, sign_text, digits_text, with_room, copy_back-fits, length-reverse_onto,
}

pad-short : (c size msize : ℕ) → msize < size → pad c size msize ≡ (replicate msize c, 2 ^ 32 - 1)
unfolding pad
pad-short c zero msize h = absurd (omega arith)
pad-short c (suc size) zero h = refl
pad-short c (suc size) (suc msize) h =
    let room : (suc msize == 0) ≡ false = ground arith in
    let less : suc msize - 1 ≡ msize = omega arith in
    rw (room, less) (ap (λ r. (c ∷ r.0, r.1)) (pad-short c size msize (omega arith)))

length-tail :
    (num base size : ℕ) (f : Flags) → length (sign_text num f ++ digits_text num base size f) ≤ 33
length-tail num base size f =
    let tmp = tmp_digits f.large (checked_base base) (magnitude f num) size in
    let sign : length (sign_text num f) ≤ 1 = ground arith in
    omega (
      arith,
      sign,
      length-append (sign_text num f) (digits_text num base size f),
      length-reverse_onto tmp [],
      length-tmp_digits f.large (checked_base base) (magnitude f num) size,
    )

-- If the padding alone is longer than what is left of the buffer, `number` fills the buffer with padding
-- and then writes sign and digits behind its end, all of them; the count of what is left has passed
-- below 0 and is a huge number, with which the caller goes on.
pub number_overrun :
    (num base size max_size : ℕ) (f : Flags)
    → 0 < max_size
    → max_size < length (padding num base size f)
    → (number num base size max_size f).0
        ≡ replicate max_size (if f.zeropad then 48 else 32)
          ++ (sign_text num f ++ digits_text num base size f)
      × 2 ^ 31 < (number num base size max_size f).1
unfolding number
number_overrun num base size max_size f h short =
    let sign = sign_char f num in
    let tmp = tmp_digits f.large (checked_base base) (magnitude f num) size in
    let n = positive (sub32 (if sign == 0 then size else sub32 size 1) (length tmp)) in
    let c : ℕ = if f.zeropad then 48 else 32 in
    let tail = sign_text num f ++ digits_text num base size f in
    let longer : max_size < n = omega (arith, short, length-replicate n c) in
    let few = length-tail num base size f in
    let out : copy_back tail (2 ^ 32 - 1) ≡ (tail, 2 ^ 32 - 1 - length tail) =
      copy_back-fits tail (2 ^ 32 - 1) (omega (arith, few)) (omega arith) in
    rw (pad-short c n max_size longer, with_room sign max_size h, out) (refl, omega (arith, few))
