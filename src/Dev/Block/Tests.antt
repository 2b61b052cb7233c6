-- ===== src/Dev/Block/Tests.antt =====
-- A partition of three blocks of four bytes, and a registry with one device.
use haoud_os.Base.{
  ℕ, ◌*◌, ◌-◌, ◌≡◌, true, none, some, ok, ◌<◌, ◌>>=◌, take, neg32, List, [], ◌∷◌, add32, ap, refl,
  arith,
}
use haoud_os.Dev.Block.{
  find_dev, lookup_blockdev, unregister_device, blockdev_unref, enter, new_blockdev, at_id,
  Blockdev, Devices, register_blockdev, read_loop, blkdev_generic_read, blkdev_generic_write,
}
use haoud_os.Dev.Block.Patch.{patched}
use haoud_os.Dev.Block.Fill.{ReadsDisk, WritesDisk, Written}
use haoud_os.Dev.Block.Write.{blkdev_generic_write_lem}
use haoud_os.Dev.Block.Bytes.{bytes}
use haoud_os.Dev.Block.Opened.{
  pos, negsuc, BlockFile, seek_set, seek_cur, blockdev_seek, blockdev_read, blockdev_write,
}
use haoud_os.Dev.Block.Seek.{Seeks, blockdev_seek_lem}
use haoud_os.Dev.Block.Again.{write-seek-read}
use haoud_os.Dev.Block.Unregister.{unregister-register}
use haoud_os.Dev.Block.Round.{readable}
use haoud_os.Dev.Block.Read.{ReadsBlocks, blkdev_generic_read_lem}

abbrev dev : Blockdev
dev = record {
  id = 0;
  count = 1;
  block_size = 4;
  block_num = 3;
  ops = 1;
  parent = none;
  first_block = 10;
  dev_id = 7;
}

-- The byte at a position is its number.
abbrev numbered : ℕ → ℕ
numbered i = i

-- The driver of a disk whose block 10 is the first of the partition.
abbrev driver : ℕ → ℕ × List ℕ
driver b = (0, bytes numbered ((b - 10) * 4) 4)

driver-ReadsBlocks : ReadsBlocks driver dev numbered
unfolding ReadsBlocks
driver-ReadsBlocks b h = ap (λ x. (0, bytes numbered (x * 4) 4)) shift
  where
    shift : add32 b 10 - 10 ≡ b
    shift = omega arith

blkdev_generic_read_lem_example :
    blkdev_generic_read driver (some dev) 3 6 ≡ (0, bytes numbered 3 (readable dev 3 6))
blkdev_generic_read_lem_example =
    blkdev_generic_read_lem driver dev numbered 3 6 (omega arith) (omega arith) driver-ReadsBlocks
      (omega arith)

read_3_6 : blkdev_generic_read driver (some dev) 3 6 ≡ (0, 3 ∷ 4 ∷ 5 ∷ 6 ∷ 7 ∷ 8 ∷ [])
unfolding bytes read_loop
read_3_6 = refl

-- The end of the device cuts a read short.
read_past_end : blkdev_generic_read driver (some dev) 10 6 ≡ (0, 10 ∷ 11 ∷ [])
unfolding bytes read_loop
read_past_end = refl

abbrev registry : Devices
registry = record { last_id = 1; blockdev_list = dev ∷ [] }

-- A disk is its contents from the partition's first byte on.
abbrev read_disk : (ℕ → ℕ) → List ℕ → ℕ → ℕ × List ℕ
read_disk disk buf b = (0, bytes disk ((b - 10) * 4) 4)

abbrev write_disk : (ℕ → ℕ) → List ℕ → ℕ → ℕ × (ℕ → ℕ)
write_disk disk buf b = (0, patched disk ((b - 10) * 4) 4 buf 0)

abbrev contents : (ℕ → ℕ) → ℕ → ℕ
contents disk p = disk p

there : (b : ℕ) → b < 3 → add32 b 10 - 10 ≡ b
there b h = omega arith

reads_disk : ReadsDisk read_disk write_disk dev contents
unfolding ReadsDisk
reads_disk disk buf b h = ap (λ x. (0, bytes disk (x * 4) 4)) (there b h)

writes_disk : WritesDisk read_disk write_disk dev contents
unfolding WritesDisk
writes_disk disk buf b h size = (refl, λ p. ap (λ x. patched disk (x * 4) 4 buf 0 p) (there b h))

abbrev buffer : List ℕ
buffer = 91 ∷ 92 ∷ 93 ∷ 94 ∷ 95 ∷ 96 ∷ []

abbrev empty_block : List ℕ
empty_block = 0 ∷ 0 ∷ 0 ∷ 0 ∷ []

blkdev_generic_write_lem_example :
    (r : ℕ × ℕ × (ℕ → ℕ)) × (blkdev_generic_write read_disk
        (some write_disk)
        (some dev)
        empty_block
        numbered
        3
        buffer
        6
      ≡ ok r)
    × Written read_disk write_disk dev contents numbered 3 6 buffer 0 r
blkdev_generic_write_lem_example =
    blkdev_generic_write_lem read_disk write_disk dev contents empty_block numbered 3 buffer 6
      (omega arith) (omega arith) reads_disk writes_disk refl (omega arith)

abbrev opened : BlockFile
opened = record { ref = 1; offset = 3; owner = 0; generation = 0; dev = 7; open_flags = 0 }

abbrev one_dev : Devices
one_dev = record { last_id = 1; blockdev_list = dev ∷ [] }

write-seek-read_example :
    (n : ℕ) × (disk' : ℕ → ℕ) × (f' : BlockFile) × (blockdev_write read_disk
        (some write_disk)
        empty_block
        one_dev
        numbered
        opened
        buffer
        6
      ≡ ok (0, n, disk', f'))
    × (blockdev_seek one_dev f' seek_set (pos 3) ≡ (0, opened))
    × (blockdev_read read_disk (some write_disk) empty_block one_dev disk' opened 6
        ≡ (0, take n buffer, f'))
unfolding find_dev
write-seek-read_example =
    write-seek-read read_disk write_disk dev contents one_dev numbered opened empty_block buffer 6
      found (omega arith) (omega arith) reads_disk writes_disk refl (omega arith) (omega arith)
      (omega arith)
  where
    found : lookup_blockdev 7 one_dev ≡ some dev
    found = refl

blockdev_seek_lem_example :
    Seeks dev opened 3 (negsuc 0) (blockdev_seek one_dev opened seek_cur (negsuc 0))
unfolding find_dev
blockdev_seek_lem_example =
    blockdev_seek_lem one_dev opened seek_cur (negsuc 0) dev 3 refl refl (omega arith)

-- The sum of 3 and the largest offset is negative: the seek succeeds, before the start of the device.
overflows :
    blockdev_seek one_dev opened seek_cur (pos (0x7fff_ffff_ffff_ffff))
    ≡ (0, record opened { offset = 0x8000_0000_0000_0002 })
unfolding find_dev
overflows = refl

abbrev empty_registry : Devices
empty_registry = record { last_id = 0; blockdev_list = [] }

unregister-register_example :
    (unregister_device 8 (enter (new_blockdev 0 8 512 100 1) empty_registry)
      ≡ ok (neg32 2, enter (new_blockdev 0 8 512 100 1) empty_registry))
    × ((blockdev_unref 0 (enter (new_blockdev 0 8 512 100 1) empty_registry)
          >>= unregister_device 8)
        ≡ ok (0, record { last_id = 1; blockdev_list = [] }))
unfolding find_dev at_id register_blockdev
unregister-register_example =
    unregister-register true 8 512 100 1 empty_registry
      (enter (new_blockdev 0 8 512 100 1) empty_registry) refl refl
