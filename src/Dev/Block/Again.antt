-- ===== src/Dev/Block/Again.antt =====
-- A write, a seek back and a read on an opened block device, core/dev/block/block.c.
use haoud_os.Base.{
  ℕ, zero, suc, ◌+◌, ◌/◌, ◌^◌, ◌%◌, ◌&&◌, ◌<◌, ◌≤◌, ◌≡◌, false, some, List, [], ◌∷◌, length, get_or,
  take, length-take, ltb, arith, refl, sym, ap, ◌∙◌, ok, ◌>>=◌,
}
use haoud_os.Dev.Block.{
  Devices, Blockdev, lookup_blockdev, blkdev_generic_read, blkdev_generic_write,
}
use haoud_os.Dev.Block.Bytes.{bytes}
use haoud_os.Dev.Block.Round.{readable}
use haoud_os.Dev.Block.Patch.{patched_in}
use haoud_os.Dev.Block.Fill.{ReadsDisk, WritesDisk, Written}
use haoud_os.Dev.Block.Read.{ReadsBlocks, blkdev_generic_read_lem}
use haoud_os.Dev.Block.Write.{blkdev_generic_write_lem}
use haoud_os.Dev.Block.Opened.{
  pos, BlockFile, seek_set, size32, blockdev_seek, blockdev_read, blockdev_write,
}

bytes-take :
    (d : ℕ → ℕ) (s n : ℕ) (buf : List ℕ)
    → n ≤ length buf
    → ((k : ℕ) → k < n → d (s + k) ≡ get_or buf k 0)
    → bytes d s n ≡ take n buf
unfolding bytes
bytes-take d s zero buf h e = refl
bytes-take d s (suc n) [] h e = absurd (omega arith)
bytes-take d s (suc n) (x ∷ buf) h e =
    ap (λ y. y ∷ bytes d (s + 1) n) (ap d (omega arith) ∙ e 0 (omega arith))
    ∙ ap (◌∷◌ x) (
        bytes-take d (s + 1) n buf (omega arith)
          (λ k l. ap d (omega arith) ∙ e (suc k) (omega arith)))

module _ {ℓ} {Disk : Type ℓ} (read_block : Disk → List ℕ → ℕ → ℕ × List ℕ)
    (write_block : Disk → List ℕ → ℕ → ℕ × Disk) (dev : Blockdev) (d : Disk → ℕ → ℕ) where
  reads_all :
      (disk : Disk) (block_buf : List ℕ)
      → ReadsDisk read_block write_block dev d
      → ReadsBlocks (read_block disk block_buf) dev (d disk)
  unfolding ReadsDisk ReadsBlocks
  reads_all disk block_buf reads b h = reads disk block_buf b h

  read_back :
      (disk disk' : Disk) (block_buf : List ℕ) (offset : ℕ) (buf : List ℕ) (len code count : ℕ)
      → 0 < dev.block_size
      → dev.block_num < 2 ^ 32
      → ReadsDisk read_block write_block dev d
      → offset / dev.block_size < 2 ^ 32
      → len ≤ length buf
      → Written read_block write_block dev d disk offset len buf 0 (code, count, disk')
      → blkdev_generic_read (read_block disk' block_buf) (some dev) offset len ≡ (0, take count buf)
  read_back disk disk' block_buf offset buf len code count positive num reads small room w =
      let n = readable dev offset len in
      blkdev_generic_read_lem (read_block disk' block_buf) dev (d disk') offset len positive num
        (reads_all disk' block_buf reads) small
      ∙ ap (λ x. (0, x))
          (bytes-take (d disk') offset n buf (omega arith) (λ k h.
              w.contents (offset + k)
              ∙ patched_in (d disk) offset n buf 0 (offset + k) (omega arith) (omega arith)
              ∙ ap (λ i. get_or buf i 0) (omega arith))
            ∙ ap (λ m. take m buf) (sym w.count))

  writes_file :
      (s : Devices) (disk disk' : Disk) (f : BlockFile) (block_buf buf : List ℕ) (len code n : ℕ)
      → lookup_blockdev f.dev s ≡ some dev
      → blkdev_generic_write read_block
          (some write_block)
          (some dev)
          block_buf
          disk
          f.offset
          buf
          len
        ≡ ok (code, n, disk')
      → code ≡ 0
      → blockdev_write read_block (some write_block) block_buf s disk f buf len
        ≡ ok (0, n, disk', record f { offset = f.offset + n })
  writes_file s disk disk' f block_buf buf len code n e w z =
      rw (blockdev_write, e)
        (ap (λ r. r >>= (λ r. ok (r.0, r.1, r.2, record f { offset = f.offset + r.1 }))) w
          ∙ ap (λ c. ok (c, n, disk', record f { offset = f.offset + n })) z)

  seeks_back :
      (s : Devices) (f : BlockFile) (o : ℕ)
      → lookup_blockdev f.dev s ≡ some dev
      → o ≤ size32 dev
      → blockdev_seek s f seek_set (pos o) ≡ (0, record f { offset = o })
  seeks_back s f o e h =
      let sum : (0 + o) % 2 ^ 64 ≡ o = omega arith in
      let passes : (ltb o (2 ^ 63) && ltb (size32 dev) o) ≡ false = ground arith in
      rw (blockdev_seek, e, sum, passes) refl

  reads_file :
      (s : Devices) (disk : Disk) (f : BlockFile) (block_buf xs : List ℕ) (len n : ℕ)
      → lookup_blockdev f.dev s ≡ some dev
      → blkdev_generic_read (read_block disk block_buf) (some dev) f.offset len ≡ (0, xs)
      → length xs ≡ n
      → blockdev_read read_block (some write_block) block_buf s disk f len
        ≡ (0, xs, record f { offset = f.offset + n })
  reads_file s disk f block_buf xs len n e r l =
      rw (blockdev_read, e)
        (ap (λ r. (r.0, r.1, record f { offset = f.offset + length (r.1) })) r
          ∙ ap (λ m. (0, xs, record f { offset = f.offset + m })) l)

  -- On an opened device whose driver reads and writes blocks, with a buffer of at least `len` bytes
  -- and a position within the device's size modulo 2^32: a write succeeds and says how many bytes it
  -- wrote, a seek takes the file back to where it was, and a read of `len` bytes from there returns
  -- the bytes of the buffer that were written and leaves the file where the write had left it.
  pub write-seek-read :
      (s : Devices) (disk : Disk) (f : BlockFile) (block_buf buf : List ℕ) (len : ℕ)
      → lookup_blockdev f.dev s ≡ some dev
      → 0 < dev.block_size
      → dev.block_num < 2 ^ 32
      → ReadsDisk read_block write_block dev d
      → WritesDisk read_block write_block dev d
      → length block_buf ≡ dev.block_size
      → f.offset / dev.block_size < 2 ^ 32
      → f.offset ≤ size32 dev
      → len ≤ length buf
      → (n : ℕ) × (disk' : Disk) × (f' : BlockFile) × (blockdev_write read_block
            (some write_block)
            block_buf
            s
            disk
            f
            buf
            len
          ≡ ok (0, n, disk', f'))
        × (blockdev_seek s f' seek_set (pos f.offset) ≡ (0, f))
        × (blockdev_read read_block (some write_block) block_buf s disk' f len
            ≡ (0, take n buf, f'))
  write-seek-read s disk f block_buf buf len e positive num reads writes size small inside room =
      let ((code, count, disk'), r, w) =
        blkdev_generic_write_lem read_block write_block dev d block_buf disk f.offset buf len
          positive num reads writes size small in
      let f' : BlockFile = record f { offset = f.offset + count } in
      let back =
        read_back disk disk' block_buf f.offset buf len code count positive num reads small room
          w in
      let all : length (take count buf) ≡ count = length-take count buf (omega (arith, w.count)) in
      (
        count,
        disk',
        f',
        writes_file s disk disk' f block_buf buf len code count e r w.code,
        seeks_back s f' f.offset e inside,
        reads_file s disk' f block_buf (take count buf) len count e back all,
      )
