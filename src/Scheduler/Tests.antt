-- ===== src/Scheduler/Tests.antt =====
-- The theorems of the maintenance windows at a schedule for every minute and at one that never comes.
use intelligent_cluster_opti.Prelude.{
  ◌+◌, ◌*◌, ◌/◌, ◌≡◌, refl, true, false, none, some, [], ◌∷◌, arith, All,
}
use intelligent_cluster_opti.Prelude.Int.{pos, negsuc, sub_ℕ, ◌+ℤ◌, ◌≤ℤ◌, ◌<ℤ◌, ltb_ℤ}
use intelligent_cluster_opti.Api.{
  Instant, minute, MaintenanceWindow, active, closed, OptimizerConfig, empty_spec,
}
use intelligent_cluster_opti.Scheduler.{
  Calendar, HasActivations, is_in_window, location_of, get_next_maintenance_window,
}
use intelligent_cluster_opti.Scheduler.Window.{Decides, is_in_window-Decides, is_in_window-none}
use intelligent_cluster_opti.Scheduler.Next.{
  IsBefore, IsStart, get_next_maintenance_window_earliest,
}

-- The whole minute after an instant. Minutes before the origin are counted from it.
next_minute : Instant → Instant
next_minute (pos n) = pos ((n / 60_000_000_000 + 1) * 60_000_000_000)
next_minute (negsuc n) = sub_ℕ 0 (n / 60_000_000_000 * 60_000_000_000)

abbrev every_minute : Calendar
every_minute = record {
  Schedule = Unit;
  Location = Unit;
  parse = λ s. some tt;
  utc = tt;
  load_location = λ z. none;
  parse_duration = λ s. some minute;
  next = λ s l t. next_minute t;
}

abbrev never : Calendar
never = record every_minute { next = λ s l t. negsuc 62_135_596_800_000_000_000 }

abbrev window : MaintenanceWindow
window = record { schedule = "* * * * *"; duration = "1m"; timezone = "UTC" }

next_minute-later : (t : Instant) → t <ℤ next_minute t
unfolding next_minute
next_minute-later t = ground arith

next_minute-earliest : (t u : Instant) → t <ℤ next_minute u → next_minute t ≤ℤ next_minute u
unfolding next_minute
next_minute-earliest t u h = ground arith

next_minute-minute : (t : Instant) → next_minute t +ℤ minute ≤ℤ next_minute (next_minute t)
unfolding next_minute ◌+ℤ◌
next_minute-minute t = ground arith

every_minute-HasActivations : HasActivations every_minute tt tt
every_minute-HasActivations = record {
  later = next_minute-later;
  earliest = next_minute-earliest;
  minute_apart = next_minute-minute;
}

is_in_window-Decides_example :
    Decides every_minute tt tt every_minute-HasActivations
      (pos 90_000_000_000)
      minute
      (is_in_window every_minute 4 window (pos 90_000_000_000))
unfolding location_of
is_in_window-Decides_example =
    is_in_window-Decides every_minute tt tt every_minute-HasActivations window (pos 90_000_000_000)
      60_000_000_000 refl refl refl (omega arith)

not_open : ltb_ℤ (pos 0) (negsuc 62_135_596_800_000_000_000 +ℤ minute) ≡ false
unfolding ◌+ℤ◌
not_open = refl

-- A million rounds are not enough.
is_in_window-none_example : is_in_window never 1_000_000 window (pos 0) ≡ none
is_in_window-none_example =
    is_in_window-none never tt (negsuc 62_135_596_800_000_000_000) 1_000_000 window (pos 0) minute
      refl refl (λ l t. refl) refl not_open

abbrev planned : OptimizerConfig
planned = record {
  namespace = "default";
  name = "web";
  generation = pos 1;
  spec = record empty_spec { enabled = true; maintenance_windows = window ∷ [] };
  status = record {
    phase = active;
    observed_generation = pos 1;
    last_recommendation_time = none;
    last_update_time = none;
    circuit_state = closed;
    consecutive_errors = pos 0;
    consecutive_successes = pos 0;
    total_recommendations = pos 0;
    total_updates_applied = pos 0;
    total_updates_failed = pos 0;
    conditions = [];
    active_maintenance_window = false;
    next_maintenance_window = none;
  };
}

get_next_maintenance_window_earliest_example :
    let start = get_next_maintenance_window every_minute (pos 5) planned in
    All (IsBefore every_minute (pos 5) start) (window ∷ [])
    × IsStart every_minute (pos 5) start (window ∷ [])
get_next_maintenance_window_earliest_example =
    get_next_maintenance_window_earliest every_minute (pos 5) planned
