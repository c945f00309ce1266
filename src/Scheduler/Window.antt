-- ===== src/Scheduler/Window.antt =====
-- The loop over the starts of a maintenance window ends, and decides whether a window is open.
use intelligent_cluster_opti.Prelude.{
  ℕ, zero, suc, ◌&&◌, if◌then◌else◌, ◌+◌, ◌*◌, ◌/◌, ◌<◌, ◌≡◌, inl, inr, refl, Bool, true, false,
  Option, none, some, arith, Bool-cases,
}
use intelligent_cluster_opti.Prelude.Int.{
  pos, ◌+ℤ◌, ◌-ℤ◌, ◌≤ℤ◌, ◌<ℤ◌, ltb_ℤ, wrap64, ltb_ℤ→lt, ltb_ℤ→le, +ℤ_parts, -ℤ_parts, eq_of_parts,
}
use intelligent_cluster_opti.Api.{Instant, Duration, minute, MaintenanceWindow}
use intelligent_cluster_opti.Scheduler.{
  Calendar, HasActivations, starts_loop, is_in_window, location_of,
}

-- `-duration - time.Minute` does not wrap.
back :
    (d : ℕ)
    → d < 9223371976854775808
    → wrap64 (wrap64 (pos 0 -ℤ pos d) -ℤ minute) ≡ pos 0 -ℤ pos (d + 60_000_000_000)
unfolding ◌-ℤ◌ wrap64
back d small = ground arith

first_start :
    (now : Instant) (d : ℕ)
    → d < 9223371976854775808
    → now +ℤ wrap64 (wrap64 (pos 0 -ℤ pos d) -ℤ minute) ≡ now -ℤ pos (d + 60_000_000_000)
first_start now d small = rw (back d small) (
    eq_of_parts _ _ (
      omega (
        arith,
        +ℤ_parts now (pos 0 -ℤ pos (d + 60_000_000_000)),
        -ℤ_parts (pos 0) (pos (d + 60_000_000_000)),
        -ℤ_parts now (pos (d + 60_000_000_000)),
      )))

module _ (c : Calendar) (s : c.Schedule) (l : c.Location) (h : HasActivations c s l) where
  -- Some activation lies before `now` by less than the duration.
  abbrev pub IsOpen : Instant → Duration → Type 0
  IsOpen now d = (u : Instant) × (c.next s l u <ℤ now) × (now <ℤ c.next s l u +ℤ d)

  abbrev pub Decides : Instant → Duration → Option Bool → Type 0
  Decides now d none = ⊥
  Decides now d (some true) = IsOpen now d
  Decides now d (some false) = ¬ IsOpen now d

  -- Every window that may be open at `now` starts no earlier than the activation after `u`.
  abbrev IsFirst : Instant → Duration → Instant → Type 0
  IsFirst now d u = (v : Instant) → now <ℤ c.next s l v +ℤ d → c.next s l u ≤ℤ c.next s l v

  not-IsOpen :
      (now : Instant) (d : Duration) (u : Instant)
      → IsFirst now d u
      → now ≤ℤ c.next s l u
      → ¬ IsOpen now d
  not-IsOpen now d u first late (v, before, within) =
      let least = first v within in absurd (omega arith)

  IsFirst-next :
      (now : Instant) (d : Duration) (u : Instant)
      → IsFirst now d u
      → c.next s l u +ℤ d ≤ℤ now
      → IsFirst now d (c.next s l u)
  IsFirst-next now d u first over v within =
      h.earliest (c.next s l u) v
        (omega (arith, +ℤ_parts (c.next s l u) d, +ℤ_parts (c.next s l v) d))

  enough-next :
      (fuel : ℕ) (now : Instant) (u : Instant)
      → now ≤ℤ c.next s l u +ℤ pos (suc fuel * 60_000_000_000)
      → now ≤ℤ c.next s l (c.next s l u) +ℤ pos (fuel * 60_000_000_000)
  enough-next fuel now u enough = omega (
    arith,
    h.minute_apart u,
    +ℤ_parts (c.next s l u) minute,
    +ℤ_parts (c.next s l u) (pos (suc fuel * 60_000_000_000)),
    +ℤ_parts (c.next s l (c.next s l u)) (pos (fuel * 60_000_000_000)),
  )

  -- One round, over whatever the later rounds answer.
  round-Decides :
      (now : Instant) (d : Duration) (u : Instant) (rest : Option Bool)
      → IsFirst now d u
      → (c.next s l u <ℤ now → c.next s l u +ℤ d ≤ℤ now → Decides now d rest)
      → let start = c.next s l u in
        Decides now d (
          if ltb_ℤ start now
          then if ltb_ℤ start now && ltb_ℤ now (start +ℤ d) then some true else rest
          else some false)
  round-Decides now d u rest first again = elim (Bool-cases (ltb_ℤ (c.next s l u) now)) [
    | inr late ↦ rw late (not-IsOpen now d u first (ltb_ℤ→le (c.next s l u) now late))
    | inl early ↦ elim (Bool-cases (ltb_ℤ now (c.next s l u +ℤ d))) [
      | inl inside ↦
          rw (early, inside)
            (u, ltb_ℤ→lt (c.next s l u) now early, ltb_ℤ→lt now (c.next s l u +ℤ d) inside)
      | inr over ↦
          rw (early, over)
            (again (ltb_ℤ→lt (c.next s l u) now early) (ltb_ℤ→le now (c.next s l u +ℤ d) over))
    ]
  ]

  starts_loop-Decides :
      (fuel : ℕ) (now : Instant) (d : Duration) (u : Instant)
      → now ≤ℤ c.next s l u +ℤ pos (fuel * 60_000_000_000)
      → IsFirst now d u
      → Decides now d (starts_loop c (suc fuel) s l now d (c.next s l u))
  unfolding starts_loop
  starts_loop-Decides zero now d u enough first =
      round-Decides now d u none first
        λ early over. absurd (omega (arith, +ℤ_parts (c.next s l u) (pos 0)))
  starts_loop-Decides (suc fuel) now d u enough first =
      round-Decides now d u (starts_loop c (suc fuel) s l now d (c.next s l (c.next s l u))) first
        λ early over.
          starts_loop-Decides fuel now d (c.next s l u) (enough-next fuel now u enough)
            (IsFirst-next now d u first over)

  enough_fuel :
      (now : Instant) (d : ℕ)
      → now
        ≤ℤ c.next s l (now -ℤ pos (d + 60_000_000_000))
          +ℤ pos ((d / 60_000_000_000 + 2) * 60_000_000_000)
  enough_fuel now d = omega (
    arith,
    h.later (now -ℤ pos (d + 60_000_000_000)),
    -ℤ_parts now (pos (d + 60_000_000_000)),
    +ℤ_parts (c.next s l (now -ℤ pos (d + 60_000_000_000)))
        (pos ((d / 60_000_000_000 + 2) * 60_000_000_000)),
  )

  IsFirst-start : (now : Instant) (d : ℕ) → IsFirst now (pos d) (now -ℤ pos (d + 60_000_000_000))
  IsFirst-start now d v within =
      h.earliest (now -ℤ pos (d + 60_000_000_000)) v
        (omega (arith, -ℤ_parts now (pos (d + 60_000_000_000)), +ℤ_parts (c.next s l v) (pos d)))

  -- For a window whose schedule and duration parse, the schedule having activations and the duration
  -- being neither negative nor within a minute of the longest, the loop ends in at most three rounds
  -- more than the duration has whole minutes, and it answers true exactly if an activation of the
  -- schedule lies before `now` by less than the duration.
  pub is_in_window-Decides :
      (window : MaintenanceWindow) (now : Instant) (d : ℕ)
      → c.parse window.schedule ≡ some s
      → c.parse_duration window.duration ≡ some (pos d)
      → location_of c window ≡ l
      → d < 9223371976854775808
      → Decides now (pos d) (is_in_window c (suc (d / 60_000_000_000 + 2)) window now)
  unfolding is_in_window
  is_in_window-Decides window now d ps pd pl small =
      rw (ps, pd, pl, first_start now d small, is_in_window)
        (starts_loop-Decides (d / 60_000_000_000 + 2) now (pos d) (now -ℤ pos (d + 60_000_000_000))
          (enough_fuel now d) (IsFirst-start now d))

module _ (c : Calendar) (s : c.Schedule) (zero_time : Instant) where
  starts_loop-none :
      (l : c.Location) (fuel : ℕ) (now : Instant) (d : Duration)
      → ((t : Instant) → c.next s l t ≡ zero_time)
      → ltb_ℤ zero_time now ≡ true
      → ltb_ℤ now (zero_time +ℤ d) ≡ false
      → starts_loop c fuel s l now d zero_time ≡ none
  unfolding starts_loop
  starts_loop-none l zero now d never early over = refl
  starts_loop-none l (suc fuel) now d never early over =
      rw (early, over, never zero_time) (starts_loop-none l fuel now d never early over)

  -- For a schedule without activations, for which cron's `Next` returns the zero time, the loop never
  -- ends: no number of rounds is enough, whenever the window is checked at a time past the zero time
  -- by the duration or more.
  pub is_in_window-none :
      (fuel : ℕ) (window : MaintenanceWindow) (now : Instant) (d : Duration)
      → c.parse window.schedule ≡ some s
      → c.parse_duration window.duration ≡ some d
      → ((l : c.Location) (t : Instant) → c.next s l t ≡ zero_time)
      → ltb_ℤ zero_time now ≡ true
      → ltb_ℤ now (zero_time +ℤ d) ≡ false
      → is_in_window c fuel window now ≡ none
  unfolding is_in_window
  is_in_window-none fuel window now d ps pd never early over =
      rw (ps, pd, never (location_of c window), is_in_window)
        (starts_loop-none (location_of c window) fuel now d (never (location_of c window)) early
          over)
