-- ===== src/Scheduler.antt =====
-- pkg/scheduler/maintenance_window.go. The cron parser, the time zones and `time.ParseDuration` are
-- the record `Calendar`. The loop over the starts of a window takes fuel; `none` is a loop that has
-- not ended within it.
mod Window
mod Next
mod Tests
use intelligent_cluster_opti.Prelude.{
  ℕ, zero, suc, String, Bool, true, false, Option, none, some, List, [], ◌∷◌, ◌&&◌, if◌then◌else◌,
  str_eq,
}
use intelligent_cluster_opti.Prelude.Int.{pos, ◌+ℤ◌, ◌-ℤ◌, ◌≤ℤ◌, ◌<ℤ◌, ltb_ℤ, wrap64}
use intelligent_cluster_opti.Api.{Instant, Duration, minute, MaintenanceWindow, OptimizerConfig}

pub record Calendar : Type 1 where
  pub Schedule : Type 0
  pub Location : Type 0
  pub parse : String → Option Schedule
  pub utc : Location
  pub load_location : String → Option Location
  pub parse_duration : String → Option Duration
  -- `schedule.Next(t.In(location))`
  pub next : Schedule → Location → Instant → Instant

-- What cron documents of `Next` for a schedule that has activations: it is the first activation that
-- is later than its argument. Activations stand on whole minutes.
pub record HasActivations (c : Calendar) (s : c.Schedule) (l : c.Location) : Type 0 where
  pub later : (t : Instant) → t <ℤ c.next s l t
  pub earliest : (t u : Instant) → t <ℤ c.next s l u → c.next s l t ≤ℤ c.next s l u
  pub minute_apart : (t : Instant) → c.next s l t +ℤ minute ≤ℤ c.next s l (c.next s l t)

-- The body of the loop of `GetNextMaintenanceWindow`.
abbrev pub earlier : Option Instant → Option Instant → Option Instant
earlier next_window none = next_window
earlier none (some t) = some t
earlier (some u) (some t) = if ltb_ℤ t u then some t else some u

module _ (c : Calendar) where
  open c use {Schedule, Location, parse, utc, load_location, parse_duration, next}

  unfoldable pub get_location : String → Option Location
  get_location timezone = if str_eq timezone "" then some utc else load_location timezone

  -- The location of a window, with the fallback of its users.
  unfoldable pub location_of : MaintenanceWindow → Location
  unfolding get_location
  location_of window = elim (get_location window.timezone) [ none ↦ utc | some l ↦ l ]

  unfoldable pub starts_loop : ℕ → Schedule → Location → Instant → Duration → Instant → Option Bool
  starts_loop zero s l now duration last_start = none
  starts_loop (suc fuel) s l now duration last_start =
      let rest = starts_loop fuel s l now duration (next s l last_start) in
      if ltb_ℤ last_start now
      then if ltb_ℤ last_start now && ltb_ℤ now (last_start +ℤ duration) then some true else rest
      else some false

  unfoldable pub is_in_window : ℕ → MaintenanceWindow → Instant → Option Bool
  unfolding location_of
  is_in_window fuel window now = elim (parse window.schedule) [
    | none ↦ some false
    | some s ↦ elim (parse_duration window.duration) [
      | none ↦ some false
      | some d ↦
          let l = location_of window in
          starts_loop fuel s l now d (next s l (now +ℤ wrap64 (wrap64 (pos 0 -ℤ d) -ℤ minute)))
    ]
  ]

  -- The loop of `IsInMaintenanceWindow`.
  unfoldable pub any_window : ℕ → List MaintenanceWindow → Instant → Option Bool
  any_window fuel [] now = some false
  any_window fuel (w ∷ ws) now =
      let rest = any_window fuel ws now in
      elim (is_in_window fuel w now) [ none ↦ none | some true ↦ some true | some false ↦ rest ]

  unfoldable pub is_in_maintenance_window : ℕ → Instant → OptimizerConfig → Option Bool
  is_in_maintenance_window fuel now config = elim config.spec.maintenance_windows [
    | [] ↦ some true
    | w ∷ ws ↦ any_window fuel (w ∷ ws) now
  ]

  unfoldable pub get_next_window_start : MaintenanceWindow → Instant → Option Instant
  unfolding location_of
  get_next_window_start window now = elim (parse window.schedule) [
    | none ↦ none
    | some s ↦ some (next s (location_of window) now)
  ]

  unfoldable pub next_loop : List MaintenanceWindow → Instant → Option Instant → Option Instant
  next_loop [] now next_window = next_window
  next_loop (w ∷ ws) now next_window =
      next_loop ws now (earlier next_window (get_next_window_start w now))

  unfoldable pub get_next_maintenance_window : Instant → OptimizerConfig → Option Instant
  get_next_maintenance_window now config = next_loop config.spec.maintenance_windows now none

  -- `true` where the method returns no error.
  unfoldable pub validate_maintenance_window : MaintenanceWindow → Bool
  validate_maintenance_window window = elim (parse window.schedule) [
    | none ↦ false
    | some _ ↦ elim (parse_duration window.duration) [
      | none ↦ false
      | some _ ↦
          if str_eq window.timezone ""
          then true
          else elim (load_location window.timezone) [ none ↦ false | some _ ↦ true ]
    ]
  ]
