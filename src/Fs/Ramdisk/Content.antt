-- ===== src/Fs/Ramdisk/Content.antt =====
-- A file of the RAM disk as a list of bytes: what a change of the size and a write make of it.
use haoud_os.Base.{
  ℕ, ◌+◌, ◌-◌, ◌*◌, ◌/◌, ◌^◌, ◌<◌, ◌≤◌, ◌≡◌, ◌⊎◌, inl, inr, Option, none, some, List, ◌++◌, length,
  length-replicate, get_or, get_or-append_left, take, replicate, leb, page_size, arith, refl, ◌∙◌,
  Bool-cases,
}
use haoud_os.Stdlib.Memory.{length-memcpy, memcpy_at, memcpy-outside}
use haoud_os.Mm.Phys.{phys_align_sup}
use haoud_os.Fs.Ramdisk.{RamFile, old_data, data_at, copy_into, contents, ramdisk_resize_file}

-- The data fill their area, and the file is no larger.
pub record Sound (f : RamFile) : Type 0 where
  pub area : length (contents f) ≡ f.allocated_size
  pub fits : f.file_size ≤ f.allocated_size

-- The bytes of the file.
abbrev pub view : RamFile → List ℕ
view f = take f.file_size (contents f)

-- A size that leaves room for the pages before the end of the address space.
abbrev pub Small : ℕ → Type 0
Small n = n < 2 ^ 32 - 4096

abbrev pages : ℕ → ℕ
pages n = phys_align_sup n / page_size * page_size

pages_enough : (n : ℕ) → Small n → n ≤ pages n
pages_enough n h = omega arith

-- After a change of the size the bytes up to both sizes are as before.
pub record Resized (f : RamFile) (n : ℕ) (f' : RamFile) : Type 0 where
  pub sound : Sound f'
  pub size : f'.file_size ≡ n
  pub keeps : (k : ℕ) → k < f.file_size → k < n → get_or (contents f') k 0 ≡ get_or (contents f) k 0

length-old_data :
    (o : Option (List ℕ)) (behind zeros : List ℕ) (n : ℕ)
    → length (old_data o behind zeros n) ≡ length zeros
length-old_data none behind zeros n = refl
length-old_data (some xs) behind zeros n = length-memcpy zeros 0 (xs ++ behind) 0 n

old_data-keeps :
    (o : Option (List ℕ)) (behind zeros : List ℕ) (n k : ℕ)
    → n ≤ length zeros
    → k < length (data_at o)
    → k < n
    → get_or (old_data o behind zeros n) k 0 ≡ get_or (data_at o) k 0
old_data-keeps none behind zeros n k room h h' = absurd (omega arith)
old_data-keeps (some xs) behind zeros n k room h h' =
    memcpy_at zeros 0 (xs ++ behind) 0 n k k k (omega arith) h' (omega arith) (omega arith)
    ∙ get_or-append_left xs behind k 0 h

pub resize_lem :
    (behind : List ℕ) (f : RamFile) (n : ℕ)
    → Sound f
    → Small n
    → Resized f n (ramdisk_resize_file behind f n)
unfolding ramdisk_resize_file
resize_lem behind f n s h = elim (Bool-cases (leb n f.allocated_size)) [
  | inl y ↦ rw (y) (record {
    sound = record { area = s.area; fits = ground arith };
    size = refl;
    keeps = λ k h h'. refl;
  })
  | inr y ↦
      let zeros : List ℕ = replicate (pages n) 0 in
      let size : length zeros ≡ pages n = length-replicate (pages n) 0 in
      let enough = pages_enough n h in
      rw (y) (record {
        sound = record { area = length-old_data f.data_ptr behind zeros n ∙ size; fits = enough };
        size = refl;
        keeps = λ k l l'.
            old_data-keeps f.data_ptr behind zeros n k (omega arith) (omega (arith, s.area, s.fits))
              l';
      })
]

pub length-copy_into :
    (o : Option (List ℕ)) (offset : ℕ) (buf : List ℕ) (len : ℕ)
    → length (data_at (copy_into o offset buf len)) ≡ length (data_at o)
length-copy_into none offset buf len = refl
length-copy_into (some xs) offset buf len = length-memcpy xs offset buf 0 len

pub copy_into-outside :
    (o : Option (List ℕ)) (offset : ℕ) (buf : List ℕ) (len k : ℕ)
    → (k < offset) ⊎ (offset + len ≤ k)
    → get_or (data_at (copy_into o offset buf len)) k 0 ≡ get_or (data_at o) k 0
copy_into-outside none offset buf len k h = refl
copy_into-outside (some xs) offset buf len k h = memcpy-outside xs offset buf 0 len k h

pub copy_into-inside :
    (o : Option (List ℕ)) (offset : ℕ) (buf : List ℕ) (len k i : ℕ)
    → offset + len ≤ length (data_at o)
    → offset + k ≡ i
    → k < len
    → get_or (data_at (copy_into o offset buf len)) i 0 ≡ get_or buf k 0
copy_into-inside none offset buf len k i room e h = absurd (omega arith)
copy_into-inside (some xs) offset buf len k i room e h =
    memcpy_at xs offset buf 0 len k i k room h e (omega arith)
