-- ===== src/Fs/Ramdisk/Listing.antt =====
-- A loop of ramdisk_readdir over a directory, core/fs/ramdisk/ramdisk.c.
use mathlib.Core.List.{Memᴰ, append_assoc}
use mathlib.Core.List.Memᴰ
use haoud_os.Base.{
  ℕ, zero, suc, ◌<◌, ◌≤◌, ◌≡◌, ◌≢◌, inl, inr, Bool, true, false, none, some, List, [], ◌∷◌, ◌++◌,
  length, length-append, ◌==◌, arith, refl, sym, ap, ◌∙◌, Bool-cases, ok, Exec, ◌>>=◌,
}
use haoud_os.Fs.Ramdisk.{InodeType, Dirent, RamDir}
use haoud_os.Fs.Ramdisk.Directory.{
  OpenDir, DirentInfo, head?, next_sibling, give_entry, ramdisk_readdir,
}
use haoud_os.Fs.Ramdisk.Order.{Least, least, above, above-lt, ramdisk_readdir_lem}

-- No two entries have the same order of creation.
abbrev pub OtherOrder : ℕ → List Dirent → Type 0
OtherOrder o [] = Unit {0}
OtherOrder o (d ∷ ds) = (d.creat_order ≢ o) × OtherOrder o ds

abbrev pub Distinct : List Dirent → Type 0
Distinct [] = Unit {0}
Distinct (d ∷ ds) = OtherOrder d.creat_order ds × Distinct ds

Least-holds : {P : Dirent → Type 0} (offset : ℕ) (d : Dirent) → Least offset P (some d) → P d
Least-holds offset d (least _ p h l) = p

Least-lt :
    {P : Dirent → Type 0} (offset : ℕ) (d : Dirent)
    → Least offset P (some d)
    → offset < d.creat_order
Least-lt offset d (least _ p h l) = h

Memᴰ-split :
    (d : Dirent) (ds : List Dirent)
    → Memᴰ d ds
    → (before : List Dirent) × (after : List Dirent) × (ds ≡ before ++ (d ∷ after))
Memᴰ-split d [] m = absurd (Memᴰ.not-nil m)
Memᴰ-split d (e ∷ ds) m = elim (Memᴰ.cases_cons m) [
  | inl same ↦ ([], ds, ap (λ x. x ∷ ds) (sym same))
  | inr t ↦ let (before, after, split) = Memᴰ-split d ds t in (e ∷ before, after, ap (◌∷◌ e) split)
]

above-le : (offset : ℕ) (ds : List Dirent) → above offset ds ≤ length ds
unfolding above
above-le offset [] = omega arith
above-le offset (d ∷ ds) = let rest = above-le offset ds in ground arith

OtherOrder-in :
    (o : ℕ) (before : List Dirent) (d : Dirent) (after : List Dirent)
    → OtherOrder o (before ++ (d ∷ after))
    → d.creat_order ≢ o
OtherOrder-in o [] d after h = h.0
OtherOrder-in o (x ∷ before) d after h = OtherOrder-in o before d after h.1

sibling_lem :
    (before : List Dirent) (d : Dirent) (after : List Dirent)
    → Distinct (before ++ (d ∷ after))
    → next_sibling d.creat_order (before ++ (d ∷ after)) ≡ ok (head? after)
unfolding next_sibling
sibling_lem [] d after h =
    let here : (d.creat_order == d.creat_order) ≡ true = ground arith in rw here refl
sibling_lem (x ∷ before) d after h =
    let other = OtherOrder-in x.creat_order before d after h.0 in
    let past : (x.creat_order == d.creat_order) ≡ false = ground arith in
    rw past (sibling_lem before d after h.1)

-- Calls until one does not give an entry, at most `rounds` of them: the entries, and whether the end
-- was reported.
module _ (kinds : ℕ → InodeType) (generation : ℕ) (dir : RamDir) where
  unfoldable pub read_dir : (rounds : ℕ) → OpenDir → Exec (List DirentInfo × Bool)
  read_dir zero f = ok ([], false)
  read_dir (suc rounds) f = ramdisk_readdir kinds generation dir f >>= (λ r. elim (r.1) [
    | none ↦ ok ([], true)
    | some info ↦ read_dir rounds r.2 >>= (λ rest. ok (info ∷ rest.0, rest.1))
  ])

  -- The loop reports the end after fewer than `rounds` entries.
  abbrev pub Ends : ℕ → OpenDir → Type 0
  Ends rounds f =
      (infos : List DirentInfo) × (read_dir rounds f ≡ ok (infos, true)) × (length infos < rounds)

  abbrev pub moved : OpenDir → Dirent → OpenDir
  moved f d = record f { offset = d.creat_order; custom_data = some d.creat_order }

  at_end_lem :
      (rounds : ℕ) (f : OpenDir)
      → ramdisk_readdir kinds generation dir f ≡ ok (give_entry kinds f none)
      → Ends (suc rounds) f
  unfolding read_dir
  at_end_lem rounds f e = ([], rw e refl, omega arith)

  goes_on_lem :
      (rounds : ℕ) (f : OpenDir) (d : Dirent)
      → ramdisk_readdir kinds generation dir f ≡ ok (give_entry kinds f (some d))
      → Ends rounds (moved f d)
      → Ends (suc rounds) f
  unfolding read_dir
  goes_on_lem rounds f d e (infos, r, l) = (
    record {
      inode_id = d.inode;
      offset_in_dirfile = d.creat_order;
      kind = kinds d.inode;
      name = d.name;
    }
        ∷ infos,
    rw e (rw r refl),
    omega (arith, l),
  )

  -- The opened directory has another generation than the inode: every call searches.
  by_search :
      (rounds : ℕ) (f : OpenDir)
      → (f.generation == generation) ≡ false
      → above f.offset dir.entries < rounds
      → Ends rounds f
  by_search zero f other h = absurd (omega arith)
  by_search (suc rounds) f other h =
      let (r, e, l) = ramdisk_readdir_lem kinds generation dir f (inr other) in
      (elim r
          as (λ r.
            ramdisk_readdir kinds generation dir f ≡ ok (give_entry kinds f r)
            → Least f.offset (λ e. Memᴰ e dir.entries) r
            → Ends (suc rounds) f) [
              | none ↦ λ e l. at_end_lem rounds f e
              | some d ↦ λ e l.
                  let fewer =
                    above-lt f.offset d dir.entries (Least-holds f.offset d l)
                      (Least-lt f.offset d l) in
                  goes_on_lem rounds f d e
                    (by_search rounds (moved f d) other (omega (arith, fewer)))
            ])
        e l

  -- It has the same one: each call gives the entry behind the last one, in the order of the list.
  by_siblings :
      (rounds : ℕ) (f : OpenDir) (before : List Dirent) (d : Dirent) (after : List Dirent)
      → (f.generation == generation) ≡ true
      → dir.entries ≡ before ++ (d ∷ after)
      → Distinct dir.entries
      → f.custom_data ≡ some d.creat_order
      → length after < rounds
      → Ends rounds f
  by_siblings zero f before d after same e distinct last h = absurd (omega arith)
  by_siblings (suc rounds) f before d [] same e distinct last h =
      at_end_lem rounds f
        (rw (ramdisk_readdir, last, same, e, sibling_lem before d [] (rw e at distinct)) refl)
  by_siblings (suc rounds) f before d (d' ∷ after) same e distinct last h =
      goes_on_lem rounds f d'
        (rw (ramdisk_readdir, last, same, e, sibling_lem before d (d' ∷ after) (rw e at distinct))
          refl)
        (by_siblings rounds (moved f d') (before ++ (d ∷ [])) d' after same
          (e ∙ sym (append_assoc before (d ∷ []) (d' ∷ after))) distinct refl (omega arith))

  -- A loop of ramdisk_readdir on an opened directory, from its first call on, over a directory that does
  -- not change and in which no two entries have the same order of creation, reports the end after at
  -- most as many entries as the directory has, whatever the generation of the opened directory is.
  pub ramdisk_readdir-Ends :
      (f : OpenDir)
      → f.custom_data ≡ none
      → Distinct dir.entries
      → Ends (suc (length dir.entries)) f
  ramdisk_readdir-Ends f first distinct = elim (Bool-cases (f.generation == generation)) [
    | inr other ↦
        by_search (suc (length dir.entries)) f other
          (let all = above-le f.offset dir.entries in omega arith)
    | inl same ↦
        let (r, e, l) = ramdisk_readdir_lem kinds generation dir f (inl first) in
        (elim r
            as (λ r.
              ramdisk_readdir kinds generation dir f ≡ ok (give_entry kinds f r)
              → Least f.offset (λ e. Memᴰ e dir.entries) r
              → Ends (suc (length dir.entries)) f) [
                | none ↦ λ e l. at_end_lem (length dir.entries) f e
                | some d ↦ λ e l.
                    let (before, after, split) =
                      Memᴰ-split d dir.entries (Least-holds f.offset d l) in
                    let shorter = length-append before (d ∷ after) in
                    goes_on_lem (length dir.entries) f d e (
                      by_siblings (length dir.entries) (moved f d) before d after same split
                        distinct refl (omega (arith, ap length split, shorter)))
              ])
          e l
  ]
