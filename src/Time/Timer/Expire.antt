-- ===== src/Time/Timer/Expire.antt =====
-- update_timers: what one pass over the list does.
use haoud_os.Base.{
  ℕ, suc, ◌+◌, ◌*◌, ◌/◌, ◌^◌, ◌<◌, ◌≡◌, inl, inr, Bool, true, false, not, ◌&&◌, ◌||◌, Option, some,
  List, [], ◌∷◌, ◌==◌, if◌then◌else◌, arith, refl, ap, sym, ◌∙◌, Bool-cases,
}
use haoud_os.Time.Timer.{
  Timer, Timers, default_frequency, is_expired, delete, next_from, next, is_head, is_empty,
  set_timer, update_one_timer, update_loop, update_timers,
}

same_id : (n : ℕ) → (n == n) ≡ true
same_id n = ground arith

delete_head : (t : Timer) (ts : List Timer) → delete t.id (t ∷ ts) ≡ ts
unfolding delete
delete_head t ts = rw (same_id t.id) refl

next_single : (t : Timer) → next_from t t.id (t ∷ []) ≡ some t
unfolding next_from
next_single t = rw (same_id t.id) refl

next_second : (t u : Timer) (ts : List Timer) → next_from t t.id (t ∷ u ∷ ts) ≡ some u
unfolding next_from
next_second t u ts = rw (same_id t.id) refl

module _ {ℓ} {A : Type ℓ} (a c : A) where
  if_true : (b : Bool) → b ≡ true → (if b then a else c) ≡ a
  if_true b e = rw (e) refl

  if_false : (b : Bool) → b ≡ false → (if b then a else c) ≡ c
  if_false b e = rw (e) refl

module _ {W : Type 0} (call : ℕ → ℕ → W → W) (sec tick : ℕ) where
  -- The head of the list, if it is due, leaves the list, and its function is called.
  abbrev pub expire_first : Timers W → Timers W
  expire_first s = elim s.timer_list [
    | [] ↦ s
    | t ∷ ts ↦
        if is_expired sec tick t
        then record { timer_list = ts; world = call t.expire_function t.data_arg s.world }
        else s
  ]

  abbrev back : ℕ → Timer → Timers W → Bool
  back nb t s = is_empty s.timer_list || (is_head t s.timer_list && not (nb == 0))

  -- Back at the head, or with an empty list, the loop ends.
  loop_ends :
      (n nb : ℕ) (t : Timer) (o : Option Timer) (s : Timers W)
      → back nb t s ≡ true
      → update_loop call sec tick (suc n) nb t o s ≡ s
  unfolding update_loop
  loop_ends n nb t o s h = rw (h) refl

  loop_not_due :
      (n nb : ℕ) (t : Timer) (o : Option Timer) (s : Timers W)
      → back nb t s ≡ false
      → is_expired sec tick t ≡ false
      → update_loop call sec tick (suc n) nb t o s ≡ s
  unfolding update_loop
  loop_not_due n nb t o s h e = rw (h, e) refl

  loop_due :
      (n nb : ℕ) (t u : Timer) (s : Timers W)
      → back nb t s ≡ false
      → is_expired sec tick t ≡ true
      → let updated = update_one_timer call sec tick t s in
        update_loop call sec tick (suc n) nb t (some u) s
        ≡ update_loop call sec tick n (suc nb) u (next u.id updated.timer_list) updated
  unfolding update_loop
  loop_due n nb t u s h e = rw (h, e) refl

  updated_head :
      (t : Timer) (ts : List Timer) (w : W)
      → is_expired sec tick t ≡ true
      → update_one_timer call sec tick t (record { timer_list = t ∷ ts; world = w })
        ≡ record { timer_list = ts; world = call t.expire_function t.data_arg w }
  updated_head t ts w e = rw (e, delete_head t ts) refl

  back_at_first :
      (t : Timer) (ts : List Timer) (w : W)
      → back 0 t (record { timer_list = t ∷ ts; world = w }) ≡ false
  back_at_first t ts w = ground arith

  back_at_new_head :
      (t : Timer) (ts : List Timer) (w : W)
      → back 1 t (record { timer_list = t ∷ ts; world = w }) ≡ true
  back_at_new_head t ts w = rw (same_id t.id) refl

  -- One round at a head that is due, which `following` then replaces.
  due_head :
      (n : ℕ) (t u : Timer) (ts : List Timer) (w : W)
      → is_expired sec tick t ≡ true
      → let after : Timers W = record {
        timer_list = ts;
        world = call t.expire_function t.data_arg w;
      } in
        back 1 u after ≡ true
        → update_loop call sec tick
            (suc (suc n))
            0
            t
            (some u)
            (record { timer_list = t ∷ ts; world = w })
          ≡ after
  due_head n t u ts w e h =
      let s : Timers W = record { timer_list = t ∷ ts; world = w } in
      let updated = update_one_timer call sec tick t s in
      let after : Timers W = record {
        timer_list = ts;
        world = call t.expire_function t.data_arg w;
      } in
      let same = updated_head t ts w e in
      loop_due (suc n) 0 t u s (back_at_first t ts w) e
      ∙ ap (λ x. update_loop call sec tick (suc n) 1 u (next u.id x.timer_list) x) same
      ∙ loop_ends n 1 u (next u.id ts) after h

  due_list :
      (n : ℕ) (t : Timer) (ts : List Timer) (w : W)
      → is_expired sec tick t ≡ true
      → update_loop call sec tick
          (suc (suc n))
          0
          t
          (next t.id (t ∷ ts))
          (record { timer_list = t ∷ ts; world = w })
        ≡ record { timer_list = ts; world = call t.expire_function t.data_arg w }
  due_list n t [] w e = rw (next_single t) (due_head n t t [] w e refl)
  due_list n t (u ∷ us) w e =
      rw (next_second t u us)
        (due_head n t u (u ∷ us) w e (back_at_new_head u us (call t.expire_function t.data_arg w)))

  update_list :
      (n : ℕ) (ts : List Timer) (w : W)
      → let s : Timers W = record { timer_list = ts; world = w } in
        update_timers call sec tick (suc (suc n)) s ≡ expire_first s
  unfolding update_timers
  update_list n [] w = refl
  update_list n (t ∷ ts) w =
      let s : Timers W = record { timer_list = t ∷ ts; world = w } in
      elim (Bool-cases (is_expired sec tick t)) [
        | inl e ↦
            due_list n t ts w e
            ∙ sym (
                if_true (record { timer_list = ts; world = call t.expire_function t.data_arg w }) s
                  (is_expired sec tick t) e)
        | inr e ↦
            loop_not_due (suc n) 0 t (next t.id (t ∷ ts)) s (back_at_first t ts w) e
            ∙ sym (
                if_false (record { timer_list = ts; world = call t.expire_function t.data_arg w }) s
                  (is_expired sec tick t) e)
      ]

  -- A call takes at most one timer off the list: the head, if it is due. Two rounds of the loop are
  -- all it makes, however many timers are due.
  pub update_timers_lem :
      (n : ℕ) (s : Timers W) → update_timers call sec tick (suc (suc n)) s ≡ expire_first s
  update_timers_lem n s = update_list n s.timer_list s.world

-- A deadline in ticks.
abbrev pub ticks : ℕ → ℕ → ℕ
ticks sec tick = sec * default_frequency + tick

-- With the present tick below 100 and a deadline whose second fits in 32 bits, the deadline is the
-- present plus the delay, rounded down to ticks, and its tick is below 100.
pub set_timer_lem :
    (sec tick ms : ℕ) (t : Timer)
    → tick < default_frequency
    → sec + ms / 1000 + 1 < 2 ^ 32
    → let t' = set_timer sec tick ms t in
      (ticks t'.sec_expire t'.tick_expire ≡ ticks sec tick + ms / 10)
      × (t'.tick_expire < default_frequency)
unfolding set_timer
set_timer_lem sec tick ms t ht hs = ground arith
