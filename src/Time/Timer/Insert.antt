-- ===== src/Time/Timer/Insert.antt =====
-- add_timer: where a new timer goes.
use haoud_os.Base.{
  ℕ, ◌≤◌, ◌≡◌, inl, inr, Bool, true, false, not, some, List, [], ◌∷◌, ◌++◌, ◌==◌, arith, refl, ap,
  Bool-cases,
}
use haoud_os.Time.Timer.{
  Timer, Timers, is_expired, goes_before, goes_first, insert_after_head, insert, add_timer,
}

-- The deadlines never decrease along the list.
unfoldable pub IsSorted : List Timer → Type 0
IsSorted [] = true ≡ true
IsSorted (x ∷ []) = true ≡ true
IsSorted (x ∷ y ∷ ys) = (goes_before x y ≡ true) × IsSorted (y ∷ ys)

goes_before_total : (x y : Timer) → goes_before x y ≡ false → goes_before y x ≡ true
goes_before_total x y h = ground arith

pub insert_after_head-IsSorted :
    (x z : Timer) (ys : List Timer)
    → goes_before z x ≡ true
    → IsSorted (z ∷ ys)
    → IsSorted (z ∷ insert_after_head x ys)
unfolding IsSorted insert_after_head
insert_after_head-IsSorted x z [] b s = (b, refl)
insert_after_head-IsSorted x z (y ∷ ys) b s = elim (Bool-cases (goes_before x y)) [
  | inl e ↦ rw (e) (b, (e, s.1))
  | inr e ↦ rw (e) (s.0, insert_after_head-IsSorted x y ys (goes_before_total x y e) s.1)
]

-- The head expires in another second than the new timer.
abbrev pub other_second : Timer → List Timer → Bool
other_second x [] = true
other_second x (head ∷ ts) = not (x.sec_expire == head.sec_expire)

first_by_second :
    (x head : Timer)
    → (x.sec_expire == head.sec_expire) ≡ false
    → goes_first x head ≡ goes_before x head
first_by_second x head h = rw (h) refl

pub insert-IsSorted :
    (x : Timer) (ts : List Timer) → other_second x ts ≡ true → IsSorted ts → IsSorted (insert x ts)
unfolding IsSorted
insert-IsSorted x [] o s = refl
insert-IsSorted x (head ∷ ts) o s =
    let same = first_by_second x head (ground arith) in
    elim (Bool-cases (goes_before x head)) [
      | inl e ↦ rw (same, e) (e, s)
      | inr e ↦ rw (same, e) (insert_after_head-IsSorted x head ts (goes_before_total x head e) s)
    ]

after_head_splits :
    (x : Timer) (ts : List Timer)
    → (before : List Timer) × (after : List Timer) × (ts ≡ before ++ after)
      × (insert_after_head x ts ≡ before ++ (x ∷ after))
unfolding insert_after_head
after_head_splits x [] = ([], [], refl, refl)
after_head_splits x (y ∷ ys) = elim (Bool-cases (goes_before x y)) [
  | inl e ↦ rw (e) ([], y ∷ ys, refl, refl)
  | inr e ↦
      let (before, after, split, result) = after_head_splits x ys in
      rw (e) (y ∷ before, after, ap (◌∷◌ y) split, ap (◌∷◌ y) result)
]

append_nil : (ts : List Timer) → ts ≡ ts ++ []
append_nil [] = refl
append_nil (t ∷ ts) = ap (◌∷◌ t) (append_nil ts)

insert_splits :
    (x : Timer) (ts : List Timer)
    → (before : List Timer) × (after : List Timer) × (ts ≡ before ++ after)
      × (insert x ts ≡ before ++ (x ∷ after))
insert_splits x [] = ([], [], refl, refl)
insert_splits x (head ∷ ts) = elim (Bool-cases (goes_first x head)) [
  | inl e ↦ rw (e) ([], head ∷ ts, refl, refl)
  | inr e ↦ elim (Bool-cases (goes_before x head)) [
    | inl e' ↦ rw (e, e') (head ∷ ts, [], append_nil (head ∷ ts), refl)
    | inr e' ↦
        let (before, after, split, result) = after_head_splits x ts in
        rw (e, e') (head ∷ before, after, ap (◌∷◌ head) split, ap (◌∷◌ head) result)
  ]
]

module _ {W : Type 0} (call : ℕ → ℕ → W → W) (sec tick : ℕ) where
  -- What `add_timer` does to the list and to the rest.
  pub data Added (x : Timer) (s : Timers W) : Timers W → Type 0 where
    called :
        is_expired sec tick x ≡ true
        → Added x s (record s { world = call x.expire_function x.data_arg s.world })
    queued :
        (before after : List Timer)
        → is_expired sec tick x ≡ false
        → s.timer_list ≡ before ++ after
        → Added x s (record s { timer_list = before ++ (x ∷ after) })

  -- A timer that is due is not queued: its function is called. Any other enters the list, in which
  -- the timers that were there keep their order, and nothing is called.
  pub add_timer_lem : (x : Timer) (s : Timers W) → Added x s (add_timer call sec tick (some x) s)
  unfolding add_timer
  add_timer_lem x s = elim (Bool-cases (is_expired sec tick x)) [
    | inl e ↦ rw (e) (called e)
    | inr e ↦
        let (before, after, split, result) = insert_splits x s.timer_list in
        rw (e, result) (queued before after e split)
  ]

  -- A sorted list stays sorted if the new timer expires in another second than its head.
  pub add_timer-IsSorted :
      (x : Timer) (s : Timers W)
      → other_second x s.timer_list ≡ true
      → IsSorted s.timer_list
      → IsSorted (add_timer call sec tick (some x) s).timer_list
  unfolding add_timer
  add_timer-IsSorted x s o sorted = elim (Bool-cases (is_expired sec tick x)) [
    | inl e ↦ rw (e) sorted
    | inr e ↦ rw (e) (insert-IsSorted x s.timer_list o sorted)
  ]

  -- A timer that is not due, for the second of the head, not later than the head and with a tick of
  -- at least that second's number, is put at the end of the list, after the timers that expire
  -- later.
  pub add_timer_same_second :
      (x head : Timer) (rest : List Timer) (w : W)
      → is_expired sec tick x ≡ false
      → x.sec_expire ≡ head.sec_expire
      → x.tick_expire ≤ head.tick_expire
      → head.sec_expire ≤ x.tick_expire
      → (add_timer call sec tick
          (some x)
          (record { timer_list = head ∷ rest; world = w })).timer_list
        ≡ (head ∷ rest) ++ (x ∷ [])
  unfolding add_timer
  add_timer_same_second x head rest w e same early late =
      let first : goes_first x head ≡ false = ground arith in
      let before : goes_before x head ≡ true = ground arith in rw (e, first, before) refl
