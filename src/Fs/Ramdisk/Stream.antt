-- ===== src/Fs/Ramdisk/Stream.antt =====
-- Writes of an opened file of the RAM disk, as changes of a list of bytes.
use haoud_os.Base.{
  ℕ, ◌+◌, ◌-◌, ◌%◌, ◌^◌, ◌<◌, ◌≤◌, ◌≡◌, inl, inr, List, ◌++◌, length, length-append, length-take,
  length-drop, get_or, get_or-take, get_or-drop, get_or-append_left, get_or-append_right,
  same_entries, take, drop, leb, add32, if◌then◌else◌, in_or_out, arith, refl, sym, ap, ◌∙◌,
  Bool-cases,
}
use haoud_os.Fs.Ramdisk.{
  RamFile, inode_file, contents, ramdisk_resize_file, put_data, ramdisk_write,
}
use haoud_os.Fs.Ramdisk.Content.{
  Sound, view, Small, resize_lem, length-copy_into, copy_into-outside, copy_into-inside,
}

-- The bytes `ys` in the place of those from position `o` on.
abbrev pub splice : List ℕ → ℕ → List ℕ → List ℕ
splice xs o ys = take o xs ++ (ys ++ drop (o + length ys) xs)

pub length-view : (f : RamFile) → Sound f → length (view f) ≡ f.file_size
length-view f s = length-take f.file_size (contents f) (omega (arith, s.area, s.fits))

-- The file with room for the write.
abbrev roomy : List ℕ → RamFile → ℕ → ℕ → RamFile
roomy behind f offset len =
    if leb f.file_size (offset + len)
    then ramdisk_resize_file behind f (add32 (offset % 2 ^ 32) len)
    else f

record Ready (f f1 : RamFile) (offset len : ℕ) : Type 0 where
  sound : Sound f1
  size : f1.file_size ≡ f.file_size - (offset + len) + (offset + len)
  keeps : (k : ℕ) → k < f.file_size → get_or (contents f1) k 0 ≡ get_or (contents f) k 0

roomy-Ready :
    (behind : List ℕ) (f : RamFile) (offset len : ℕ)
    → Sound f
    → Small (offset + len)
    → Ready f (roomy behind f offset len) offset len
roomy-Ready behind f offset len s h = elim (Bool-cases (leb f.file_size (offset + len))) [
  | inl y ↦
      let n : add32 (offset % 2 ^ 32) len ≡ offset + len = omega arith in
      let r = resize_lem behind f (offset + len) s h in
      rw (y, n)
        (record {
          sound = r.sound;
          size = ground (arith, r.size);
          keeps = λ k l. r.keeps k l (ground arith);
        })
  | inr y ↦ rw (y) (record { sound = s; size = ground arith; keeps = λ k l. refl })
]

module _ (f f1 : RamFile) (offset len : ℕ) (buf : List ℕ) (s : Sound f) (r : Ready f f1 offset len)
    (inside : offset ≤ f.file_size) (room : len ≤ length buf) where
  length-splice : length (splice (view f) offset (take len buf)) ≡ f1.file_size
  length-splice =
      let v = length-view f s in
      let l = length-take len buf room in
      omega (
        arith,
        r.size,
        v,
        l,
        length-append (take offset (view f))
            (take len buf ++ drop (offset + length (take len buf)) (view f)),
        length-append (take len buf) (drop (offset + length (take len buf)) (view f)),
        length-take offset (view f) (omega (arith, v)),
        length-drop (offset + length (take len buf)) (view f),
      )

  before :
      (k : ℕ)
      → k < offset
      → get_or (splice (view f) offset (take len buf)) k 0 ≡ get_or (contents f) k 0
  before k h =
      get_or-append_left (take offset (view f))
        (take len buf ++ drop (offset + length (take len buf)) (view f)) k 0
        (omega (arith, length-take offset (view f) (omega (arith, length-view f s))))
      ∙ get_or-take offset k (view f) 0 h
      ∙ get_or-take f.file_size k (contents f) 0 (omega arith)

  within :
      (k : ℕ)
      → k < len
      → get_or (splice (view f) offset (take len buf)) (offset + k) 0 ≡ get_or buf k 0
  within k h =
      get_or-append_right (take offset (view f))
        (take len buf ++ drop (offset + length (take len buf)) (view f)) k (offset + k) 0
        (omega (arith, length-take offset (view f) (omega (arith, length-view f s))))
      ∙ get_or-append_left (take len buf) (drop (offset + length (take len buf)) (view f)) k 0
          (omega (arith, length-take len buf room))
      ∙ get_or-take len k buf 0 h

  behind_it :
      (k : ℕ)
      → offset + len ≤ k
      → k < f.file_size
      → get_or (splice (view f) offset (take len buf)) k 0 ≡ get_or (contents f) k 0
  behind_it k h h' =
      let l = length-take len buf room in
      get_or-append_right (take offset (view f))
        (take len buf ++ drop (offset + length (take len buf)) (view f)) (k - offset) k 0
        (omega (arith, length-take offset (view f) (omega (arith, length-view f s))))
      ∙ get_or-append_right (take len buf) (drop (offset + length (take len buf)) (view f))
          (k - offset - len) (k - offset) 0 (omega (arith, l))
      ∙ get_or-drop (offset + length (take len buf)) (k - offset - len) k (view f) 0
          (omega (arith, l))
      ∙ get_or-take f.file_size k (contents f) 0 h'

  entries :
      (k : ℕ)
      → k < f1.file_size
      → get_or (contents (put_data f1 offset buf len)) k 0
        ≡ get_or (splice (view f) offset (take len buf)) k 0
  entries k h = elim (in_or_out k offset) [
    | inl a ↦
        copy_into-outside f1.data_ptr offset buf len k (inl a)
        ∙ r.keeps k (omega arith)
        ∙ sym (before k a)
    | inr a ↦ elim (in_or_out k (offset + len)) [
      | inl b ↦
          copy_into-inside f1.data_ptr offset buf len (k - offset) k
            (omega (arith, r.sound.area, r.sound.fits, r.size)) (omega arith) (omega arith)
          ∙ sym (within (k - offset) (omega arith))
          ∙ ap (λ i. get_or (splice (view f) offset (take len buf)) i 0) (omega arith)
      | inr b ↦
          copy_into-outside f1.data_ptr offset buf len k (inr b)
          ∙ r.keeps k (omega (arith, r.size))
          ∙ sym (behind_it k b (omega (arith, r.size)))
    ]
  ]

  put-Sound : Sound (put_data f1 offset buf len)
  put-Sound = record {
    area = length-copy_into f1.data_ptr offset buf len ∙ r.sound.area;
    fits = r.sound.fits;
  }

  view-put : view (put_data f1 offset buf len) ≡ splice (view f) offset (take len buf)
  view-put =
      same_entries 0 (view (put_data f1 offset buf len)) (splice (view f) offset (take len buf))
        (length-view (put_data f1 offset buf len) put-Sound ∙ sym length-splice)
        (λ k h.
          let small : k < f1.file_size =
            omega (arith, h, length-view (put_data f1 offset buf len) put-Sound) in
          get_or-take f1.file_size k (contents (put_data f1 offset buf len)) 0 small
          ∙ entries k small)

-- A write at a position up to the end of the file puts the bytes of the buffer there: before and behind
-- them the file is as before, and it grows where they go beyond its end, whatever the memory holds
-- behind the old area. The premise on the end of the write keeps it below the last page.
pub ramdisk_write_lem :
    (behind : List ℕ) (f : RamFile) (offset : ℕ) (buf : List ℕ) (len : ℕ)
    → Sound f
    → offset ≤ f.file_size
    → Small (offset + len)
    → len ≤ length buf
    → (f' : RamFile) × (ramdisk_write behind inode_file f offset buf len
        ≡ (0, len, offset + len, f'))
      × Sound f'
      × (view f' ≡ splice (view f) offset (take len buf))
ramdisk_write_lem behind f offset buf len s inside h room =
    let f1 = roomy behind f offset len in
    let r = roomy-Ready behind f offset len s h in
    let at : offset % 2 ^ 32 ≡ offset = omega arith in
    (
      put_data f1 offset buf len,
      ap (λ o. (0, len, offset + len, put_data f1 o buf len)) at,
      put-Sound f f1 offset len buf s r inside room,
      view-put f f1 offset len buf s r inside room,
    )
