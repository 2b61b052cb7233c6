-- ===== src/Time/Timer/Tests.antt =====
-- Runs of the timer functions.
use haoud_os.Base.{ℕ, ◌≡◌, some, List, [], ◌∷◌, refl}
use haoud_os.Time.Timer.{
  Timer, Timers, delete, next_from, set_timer, add_timer, update_loop, update_timers,
}
use haoud_os.Time.Timer.Insert.{IsSorted, add_timer-IsSorted}
use haoud_os.Time.Timer.Expire.{expire_first, update_timers_lem}

abbrev timer : ℕ → ℕ → ℕ → Timer
timer i sec tick = record {
  id = i;
  sec_expire = sec;
  tick_expire = tick;
  data_arg = i;
  expire_function = 0;
}

-- The callback notes whom it was called for.
abbrev note : ℕ → ℕ → List ℕ → List ℕ
note f d w = d ∷ w

abbrev three : Timers (List ℕ)
three = record { timer_list = timer 1 5 10 ∷ timer 2 5 40 ∷ timer 3 9 0 ∷ []; world = [] }

three-IsSorted : IsSorted three.timer_list
unfolding IsSorted
three-IsSorted = (refl, (refl, refl))

add_timer-IsSorted_example : IsSorted (add_timer note 2 0 (some (timer 4 7 0)) three).timer_list
add_timer-IsSorted_example = add_timer-IsSorted note 2 0 (timer 4 7 0) three refl three-IsSorted

update_timers_lem_example : update_timers note 6 0 5 three ≡ expire_first note 6 0 three
update_timers_lem_example = update_timers_lem note 6 0 3 three

-- Two timers are due, and one leaves.
update_two :
    update_timers note 6 0 5 three
    ≡ record { timer_list = timer 2 5 40 ∷ timer 3 9 0 ∷ []; world = 1 ∷ [] }
unfolding delete next_from update_loop update_timers
update_two = refl

set_1234 : set_timer 7 95 1234 (timer 1 0 0) ≡ timer 1 9 18
unfolding set_timer
set_1234 = refl
