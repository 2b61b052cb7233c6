-- ===== src/Fs/Ramdisk/Reading.antt =====
-- Reads of an opened file, and what is read after a write.
use haoud_os.Base.{
  ℕ, ◌+◌, ◌-◌, ◌≤◌, ◌≡◌, inl, inr, List, [], ◌++◌, length, length-take, length-drop, take-drop-take,
  take-append, drop-append, take, drop, leb, arith, sym, ap, ◌∙◌, Bool-cases,
}
use haoud_os.Fs.Ramdisk.{RamFile, inode_file, contents, ramdisk_write, ramdisk_read}
use haoud_os.Fs.Ramdisk.Content.{Sound, view, Small}
use haoud_os.Fs.Ramdisk.Stream.{splice, length-view, ramdisk_write_lem}

-- Success, the bytes and the offset afterwards.
abbrev pub moved_to : List ℕ → ℕ → ℕ × List ℕ × ℕ
moved_to xs o = (0, xs, o)

-- The bytes that a read of `len` bytes asks for.
abbrev pub asked : RamFile → ℕ → ℕ → List ℕ
asked f offset len = take len (drop offset (view f))

reads :
    (f : RamFile) (offset len n : ℕ)
    → Sound f
    → n ≡ len - (len - (f.file_size - offset))
    → moved_to (take n (drop offset (contents f))) (offset + n)
      ≡ moved_to (asked f offset len) (offset + length (asked f offset len))
reads f offset len n s e =
    let part : asked f offset len ≡ take n (drop offset (contents f)) =
      take-drop-take 0 len offset n f.file_size (contents f) (omega (arith, s.area, s.fits)) e in
    let size : length (take n (drop offset (contents f))) ≡ n =
      length-take n (drop offset (contents f))
        (omega (arith, length-drop offset (contents f), s.area, s.fits, e)) in
    rw (part) (ap (λ k. moved_to (take n (drop offset (contents f))) (offset + k)) (sym size))

-- A read of a file returns its bytes from the offset on, `len` of them or those there are, and moves
-- the offset behind them.
pub ramdisk_read_lem :
    (f : RamFile) (offset len : ℕ)
    → Sound f
    → ramdisk_read inode_file f offset len
      ≡ moved_to (asked f offset len) (offset + length (asked f offset len))
ramdisk_read_lem f offset len s = elim (Bool-cases (leb f.file_size offset)) [
  | inl y ↦ rw (y) (ap (moved_to []) (omega arith) ∙ reads f offset len 0 s (ground arith))
  | inr y ↦ elim (Bool-cases (leb f.file_size (offset + len))) [
    | inl z ↦ rw (y, z) (reads f offset len (f.file_size - offset) s (ground arith))
    | inr z ↦ rw (y, z) (reads f offset len len s (ground arith))
  ]
]

splice-asked :
    (f f' : RamFile) (offset len : ℕ) (buf : List ℕ)
    → Sound f
    → offset ≤ f.file_size
    → len ≤ length buf
    → view f' ≡ splice (view f) offset (take len buf)
    → asked f' offset len ≡ take len buf
splice-asked f f' offset len buf s inside room e =
    let ys = take len buf in
    ap (λ v. take len (drop offset v)) e
    ∙ ap (take len) (
        drop-append offset (take offset (view f)) (ys ++ drop (offset + length ys) (view f))
          (sym (length-take offset (view f) (omega (arith, length-view f s)))))
    ∙ take-append len ys (drop (offset + length ys) (view f)) (sym (length-take len buf room))

-- In a sound file a read at the place of a write, of as many bytes, returns the bytes written, whatever
-- the memory holds behind the old area. The write starts in the file or at its end, its bytes are in
-- the buffer, and the size of the file afterwards is small.
pub read-write :
    (behind : List ℕ) (f : RamFile) (offset : ℕ) (buf : List ℕ) (len : ℕ)
    → Sound f
    → offset ≤ f.file_size
    → Small (offset + len)
    → len ≤ length buf
    → let w = ramdisk_write behind inode_file f offset buf len in
      ramdisk_read inode_file (w.3) offset len ≡ moved_to (take len buf) (w.2)
read-write behind f offset buf len s inside h room =
    let (f', e, s', v) = ramdisk_write_lem behind f offset buf len s inside h room in
    let same = splice-asked f f' offset len buf s inside room v in
    ap (λ w. ramdisk_read inode_file w offset len) (ap (λ w. w.3) e)
    ∙ ramdisk_read_lem f' offset len s'
    ∙ ap (λ xs. moved_to xs (offset + length xs)) same
    ∙ ap (λ k. moved_to (take len buf) (offset + k)) (length-take len buf room)
    ∙ ap (moved_to (take len buf)) (sym (ap (λ w. w.2) e))
