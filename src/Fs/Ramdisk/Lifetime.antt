-- ===== src/Fs/Ramdisk/Lifetime.antt =====
-- The life of an inode of the RAM disk, and the memory that an unmount gives back.
use haoud_os.Base.{
  ℕ, zero, suc, ◌+◌, ◌*◌, ◌/◌, ◌<◌, ◌≡◌, ◌≢◌, ◌⊎◌, inl, inr, true, false, Option, none, some, neg32,
  List, [], ◌∷◌, ltb, ◌==◌, page_size, arith, refl, ap,
}
use haoud_os.Fs.Ramdisk.{
  InodeType, inode_file, inode_directory, inode_char_device, inode_block_device, inode_other,
}
use haoud_os.Fs.Ramdisk.Inodes.{
  RamInode, RamSuper, Payload, file, dir, device, empty_file, empty_dir, new_inode, add_inode,
  ramdisk_allocate_inode, inode_at, delete_inode, ramdisk_inode_destructor, Release, unmaps,
  unmap_pages,
}

-- The pages of an area, in order.
abbrev pub pages_from : ℕ → (first n : ℕ) → List Release
pages_from inode first zero = []
pages_from inode first (suc n) = unmaps inode first ∷ pages_from inode (first + 1) n

-- An area of `n` pages is unmapped page by page, each page once.
pub unmap_pages_lem :
    (rounds inode first n : ℕ)
    → n < rounds
    → unmap_pages rounds inode (first * page_size) ((first + n) * page_size)
      ≡ pages_from inode first n
unfolding unmap_pages
unmap_pages_lem zero inode first n h = absurd (omega arith)
unmap_pages_lem (suc rounds) inode first zero h =
    let stop : ltb (first * page_size) ((first + 0) * page_size) ≡ false = ground arith in
    rw (stop) refl
unmap_pages_lem (suc rounds) inode first (suc n) h =
    let more : ltb (first * page_size) ((first + suc n) * page_size) ≡ true = ground arith in
    let page : first * page_size / page_size ≡ first = omega arith in
    let next : first * page_size + page_size ≡ (first + 1) * page_size = omega arith in
    let end : (first + suc n) * page_size ≡ (first + 1 + n) * page_size = omega arith in
    rw (more, page, next, end)
      (ap (λ l. unmaps inode first ∷ l) (unmap_pages_lem rounds inode (first + 1) n (omega arith)))

allocated :
    (address : ℕ) (kind : InodeType) (p : Payload) (is : List RamInode)
    → inode_at address is ≡ none
    → inode_at address (add_inode (new_inode address kind p) is) ≡ some (new_inode address kind p)
unfolding inode_at
allocated address kind p [] e = ground arith
allocated address kind p (i ∷ is) e = ground arith

deleted :
    (address : ℕ) (kind : InodeType) (p : Payload) (is : List RamInode)
    → inode_at address is ≡ none
    → delete_inode address (add_inode (new_inode address kind p) is) ≡ is
unfolding inode_at delete_inode
deleted address kind p [] e = let y : (address == address) ≡ true = ground arith in rw (y) refl
deleted address kind p (i ∷ is) e =
    let y : (address == address) ≡ true = ground arith in
    let n : (i.inode_id == address) ≡ false = ground arith in rw (n, y) refl

-- What a new inode of each type holds: no bytes, no entries, or nothing of its own.
pub data Begins : InodeType → Payload → Type 0 where
  no_bytes :
      Begins inode_file (file (record { data_ptr = none; file_size = 0; allocated_size = 0 }))
  no_entries : Begins inode_directory (dir (record { entries = []; top_creat_order = 0 }))
  for_chars : Begins inode_char_device device
  for_blocks : Begins inode_block_device device

-- A new inode: one reference in memory, none on the disk.
pub record IsNew (address : ℕ) (kind : InodeType) (i : RamInode) : Type 0 where
  pub number : i.inode_id ≡ address
  pub of_kind : i.kind ≡ kind
  pub in_memory : i.memory_count ≡ 1
  pub on_disk : i.disk_count ≡ 0
  pub unchanged : i.generation ≡ 0
  pub clean : i.is_dirty ≡ false
  pub begins : Begins kind i.payload

-- The inode is entered, and the destructor takes it out again if no name leads to it, only then.
pub record Lives (address : ℕ) (kind : InodeType) (s : RamSuper) (r : ℕ × Option ℕ × RamSuper)
    : Type 0 where
  pub inode : RamInode
  pub success : r.0 ≡ 0
  pub result : r.1 ≡ some address
  pub entered : inode_at address r.2.inode_list ≡ some inode
  pub is_new : IsNew address kind inode
  pub destroyed : (ramdisk_inode_destructor inode r.2).inode_list ≡ s.inode_list
  pub linked :
      (n : ℕ) → n ≢ 0 → ramdisk_inode_destructor (record inode { disk_count = n }) r.2 ≡ r.2

lives :
    (address : ℕ) (kind : InodeType) (p : Payload) (s : RamSuper)
    → Begins kind p
    → inode_at address s.inode_list ≡ none
    → Lives address kind s (
      0,
      some address,
      record s { inode_list = add_inode (new_inode address kind p) s.inode_list },
    )
lives address kind p s b fresh = record {
  inode = new_inode address kind p;
  success = refl;
  result = refl;
  entered = allocated address kind p s.inode_list fresh;
  is_new = record {
    number = refl;
    of_kind = refl;
    in_memory = refl;
    on_disk = refl;
    unchanged = refl;
    clean = refl;
    begins = b;
  };
  destroyed = deleted address kind p s.inode_list fresh;
  linked = λ n some_names. let y : (n == 0) ≡ false = ground arith in rw y refl;
}

-- For a file, a directory and the two kinds of device, ramdisk_allocate_inode enters an inode under
-- the address, with one reference in memory, none on the disk, and no contents; its destructor leaves
-- the inodes as they were before when no name leads to the inode, and changes nothing when some name
-- does. A type that the RAM disk does not take gives an error and changes nothing. The premise says
-- that kmalloc returned memory not in use.
pub destructor-allocate :
    (address : ℕ) (kind : InodeType) (s : RamSuper)
    → inode_at address s.inode_list ≡ none
    → Lives address kind s (ramdisk_allocate_inode address kind s)
      ⊎ ((kind ≡ inode_other) × (ramdisk_allocate_inode address kind s ≡ (neg32 1, none, s)))
destructor-allocate address inode_file s fresh =
    inl (lives address inode_file (file empty_file) s no_bytes fresh)
destructor-allocate address inode_directory s fresh =
    inl (lives address inode_directory (dir empty_dir) s no_entries fresh)
destructor-allocate address inode_char_device s fresh =
    inl (lives address inode_char_device device s for_chars fresh)
destructor-allocate address inode_block_device s fresh =
    inl (lives address inode_block_device device s for_blocks fresh)
destructor-allocate address inode_other s fresh = inr (refl, refl)
