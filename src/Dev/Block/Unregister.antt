-- ===== src/Dev/Block/Unregister.antt =====
-- The end of a registered block device, core/dev/block/block.c.
use haoud_os.Base.{
  ℕ, ◌+◌, ◌-◌, ◌%◌, ◌^◌, ◌≡◌, Bool, true, false, none, some, List, [], ◌∷◌, ◌==◌, neg32, arith,
  refl, ap, ◌∙◌, ok, ◌>>=◌,
}
use haoud_os.Dev.Block.{
  Blockdev, Devices, find_dev, lookup_blockdev, add_device, update, at_id, delete_id, new_blockdev,
  enter, register_blockdev, blockdev_unref, unregister_device,
}

abbrev less : Blockdev → Blockdev
less b = record b { count = b.count - 1 }

-- No device of the list has the `id`.
abbrev pub Fresh : ℕ → List Blockdev → Type 0
Fresh i bs = at_id i bs ≡ none

at_new : (b : Blockdev) (bs : List Blockdev) → Fresh b.id bs → at_id b.id (add_device b bs) ≡ some b
unfolding at_id
at_new b [] h = ground arith
at_new b (head ∷ bs) h = ground arith

update_new :
    (b : Blockdev) (bs : List Blockdev)
    → Fresh b.id bs
    → update b.id less (add_device b bs) ≡ add_device (less b) bs
unfolding at_id update
update_new b [] h = let e : (b.id == b.id) ≡ true = ground arith in rw (e) refl
update_new b (head ∷ bs) h =
    let e : (b.id == b.id) ≡ true = ground arith in
    let n : (head.id == b.id) ≡ false = ground arith in rw (n, e) refl

delete_new :
    (b : Blockdev) (bs : List Blockdev)
    → Fresh b.id bs
    → delete_id b.id (add_device (less b) bs) ≡ bs
unfolding at_id delete_id
delete_new b [] h = let e : (b.id == b.id) ≡ true = ground arith in rw (e) refl
delete_new b (head ∷ bs) h =
    let e : (b.id == b.id) ≡ true = ground arith in
    let n : (head.id == b.id) ≡ false = ground arith in rw (n, e) refl

find_new :
    (b : Blockdev) (bs : List Blockdev)
    → find_dev b.dev_id bs ≡ none
    → find_dev b.dev_id (add_device b bs) ≡ some b
unfolding find_dev
find_new b [] e = ground arith
find_new b (head ∷ bs) e = ground arith

unref_new :
    (b : Blockdev) (s : Devices)
    → Fresh b.id s.blockdev_list
    → (b.count == 0) ≡ false
    → blockdev_unref b.id (enter b s) ≡ ok (enter (less b) s)
unref_new b s fresh e =
    rw (blockdev_unref, at_new b s.blockdev_list fresh, e, update_new b s.blockdev_list fresh) refl

busy :
    (b : Blockdev) (s : Devices)
    → lookup_blockdev b.dev_id s ≡ none
    → (b.count == 0) ≡ false
    → unregister_device b.dev_id (enter b s) ≡ ok (neg32 2, enter b s)
busy b s e e' = rw (unregister_device, find_new b s.blockdev_list e, e') refl

taken_out :
    (i size blocks ops : ℕ) (s : Devices)
    → lookup_blockdev i s ≡ none
    → Fresh s.last_id s.blockdev_list
    → unregister_device i (enter (less (new_blockdev s.last_id i size blocks ops)) s)
      ≡ ok (0, record s { last_id = (s.last_id + 1) % 2 ^ 64 })
taken_out i size blocks ops s e fresh =
    let b = new_blockdev s.last_id i size blocks ops in
    rw (unregister_device, find_new (less b) s.blockdev_list e)
      (ap (λ l. ok (0, record { last_id = (s.last_id + 1) % 2 ^ 64; blockdev_list = l }))
        (delete_new b s.blockdev_list fresh))

registered :
    (memory : Bool) (i size blocks ops : ℕ) (s u : Devices)
    → register_blockdev memory i size blocks ops s ≡ (0, u)
    → (lookup_blockdev i s ≡ none) × (u ≡ enter (new_blockdev s.last_id i size blocks ops) s)
unfolding register_blockdev
registered memory i size blocks ops s u h = ground arith

-- A device that was just registered cannot be taken out, for its first reference; after this reference
-- is given back it is taken out, and the registry holds what it held before. The premise says that the
-- counter that numbers the devices has not come back to a number in use.
pub unregister-register :
    (memory : Bool) (i size blocks ops : ℕ) (s u : Devices)
    → register_blockdev memory i size blocks ops s ≡ (0, u)
    → Fresh s.last_id s.blockdev_list
    → (unregister_device i u ≡ ok (neg32 2, u))
      × ((blockdev_unref s.last_id u >>= unregister_device i)
          ≡ ok (0, record s { last_id = (s.last_id + 1) % 2 ^ 64 }))
unregister-register memory i size blocks ops s u h fresh =
    let b = new_blockdev s.last_id i size blocks ops in
    let (e, same) = registered memory i size blocks ops s u h in
    rw (same) (
      busy b s e refl,
      ap (λ r. r >>= unregister_device i) (unref_new b s fresh refl)
          ∙ taken_out i size blocks ops s e fresh,
    )
