-- ===== src/Time/Timer.antt =====
-- core/time/timer.c. The circular list from `timer_list` on is a List: what stands before its first
-- node is at its end. A timer's address is its `id`. `call` is what a call through a function pointer
-- does to the rest of the kernel; the kernel's one callback, `process_timeout`, leaves the list alone.
pub mod Insert
pub mod Expire
mod Tests
use haoud_os.Base.{
  ℕ, zero, suc, ◌+◌, ◌-◌, ◌/◌, ◌%◌, Bool, true, false, not, ◌&&◌, ◌||◌, Option, none, some, List,
  [], ◌∷◌, ◌++◌, ltb, leb, ◌==◌, if◌then◌else◌, add32,
}

pub record Timer : Type 0 where
  pub id : ℕ
  pub sec_expire : ℕ
  pub tick_expire : ℕ
  pub data_arg : ℕ
  pub expire_function : ℕ

-- `PIT_8254_DEFAULT_FRENQUENCY`
abbrev pub default_frequency : ℕ
default_frequency = 100

-- The timers that are due, as `add_timer`, `update_one_timer` and `update_timers` test it.
abbrev pub is_expired : ℕ → ℕ → Timer → Bool
is_expired sec tick t = ltb t.sec_expire sec || (t.sec_expire == sec && leb t.tick_expire tick)

-- The test of the loop in `add_timer`.
abbrev pub goes_before : Timer → Timer → Bool
goes_before x y =
    ltb x.sec_expire y.sec_expire
    || (x.sec_expire == y.sec_expire && leb x.tick_expire y.tick_expire)

-- The test for the head, which compares the tick with the head's second.
abbrev pub goes_first : Timer → Timer → Bool
goes_first x head =
    ltb x.sec_expire head.sec_expire
    || (x.sec_expire == head.sec_expire && ltb x.tick_expire head.sec_expire)

-- The loop from the second node on; after the last one `list_add_before(timer_list, …)` adds at the end.
unfoldable pub insert_after_head : Timer → List Timer → List Timer
insert_after_head x [] = x ∷ []
insert_after_head x (y ∷ ys) = if goes_before x y then x ∷ y ∷ ys else y ∷ insert_after_head x ys

-- The loop. A node put before the head does not become the head: it stands at the end.
abbrev pub insert_in_loop : Timer → Timer → List Timer → List Timer
insert_in_loop x head rest =
    if goes_before x head then (head ∷ rest) ++ (x ∷ []) else head ∷ insert_after_head x rest

abbrev pub insert : Timer → List Timer → List Timer
insert x [] = x ∷ []
insert x (head ∷ rest) = if goes_first x head then x ∷ head ∷ rest else insert_in_loop x head rest

-- The list, and the rest of the kernel.
pub record Timers (W : Type 0) : Type 0 where
  pub timer_list : List Timer
  pub world : W

-- `list_foreach` up to the timer looked for, and `list_delete`.
unfoldable pub delete : ℕ → List Timer → List Timer
delete i [] = []
delete i (t ∷ ts) = if t.id == i then ts else t ∷ delete i ts

-- `x->next` in the circular list; `some` unless the node is not in the list.
unfoldable pub next_from : Timer → ℕ → List Timer → Option Timer
next_from head i [] = none
next_from head i (t ∷ []) = if t.id == i then some head else none
next_from head i (t ∷ u ∷ ts) = if t.id == i then some u else next_from head i (u ∷ ts)

abbrev pub next : ℕ → List Timer → Option Timer
next i [] = none
next i (head ∷ ts) = next_from head i (head ∷ ts)

abbrev pub is_head : Timer → List Timer → Bool
is_head t [] = false
is_head t (head ∷ ts) = t.id == head.id

abbrev pub is_empty : List Timer → Bool
is_empty [] = true
is_empty _ = false

-- The deadline, in the second and the tick that `sec` and `tick` say.
unfoldable pub set_timer : ℕ → ℕ → ℕ → Timer → Timer
set_timer sec tick ms t =
    let s = add32 sec (ms / 1000) in
    let k = add32 tick (ms % 1000 / (1000 / default_frequency)) in
    if leb default_frequency k
    then record t { sec_expire = add32 s 1; tick_expire = k - default_frequency }
    else record t { sec_expire = s; tick_expire = k }

module _ {W : Type 0} (call : ℕ → ℕ → W → W) (sec tick : ℕ) where
  abbrev pub expire : Timer → Timers W → Timers W
  expire t s = record s { world = call t.expire_function t.data_arg s.world }

  unfoldable pub add_timer : Option Timer → Timers W → Timers W
  add_timer none s = s
  add_timer (some x) s =
      if is_expired sec tick x then expire x s else record s { timer_list = insert x s.timer_list }

  abbrev pub del_timer : Timer → Timers W → Timers W
  del_timer t s = record s { timer_list = delete t.id s.timer_list }

  abbrev pub update_one_timer : Timer → Timers W → Timers W
  update_one_timer t s = if is_expired sec tick t then del_timer t (expire t s) else s

  -- `list_foreach_safe`, `looked` and `following` its variables: it ends when it is back at the node
  -- that is the list's head by then. A following node that is NULL is never looked at.
  unfoldable pub update_loop : (rounds : ℕ) → (nb : ℕ) → Timer → Option Timer → Timers W → Timers W
  update_loop zero nb looked following s = s
  update_loop (suc rounds) nb looked following s =
      let updated = update_one_timer looked s in
      let rest : Timers W = elim following [
        | none ↦ updated
        | some t ↦ update_loop rounds (suc nb) t (next t.id updated.timer_list) updated
      ] in
      if is_empty s.timer_list || (is_head looked s.timer_list && not (nb == 0))
      then s
      else if is_expired sec tick looked
      then rest
      else s

  unfoldable pub update_timers : (rounds : ℕ) → Timers W → Timers W
  update_timers rounds s = elim s.timer_list [
    | [] ↦ s
    | head ∷ ts ↦ update_loop rounds 0 head (next head.id s.timer_list) s
  ]
