-- ===== src/Scheduler/Next.antt =====
-- The next maintenance window is the earliest among the next starts of all windows.
use intelligent_cluster_opti.Prelude.{
  ◌≡◌, ◌⊎◌, inl, inr, Option, none, some, List, [], ◌∷◌, arith, All, refl,
}
use intelligent_cluster_opti.Prelude.Int.{◌≤ℤ◌}
use intelligent_cluster_opti.Api.{Instant, MaintenanceWindow, OptimizerConfig}
use intelligent_cluster_opti.Scheduler.{
  Calendar, get_next_window_start, earlier, next_loop, get_next_maintenance_window,
}

-- Both are there, and the first is no later.
abbrev pub NoLater : Option Instant → Instant → Type 0
NoLater none u = ⊥
NoLater (some t) u = t ≤ℤ u

module _ (c : Calendar) (now : Instant) where
  abbrev pub Starts : Instant → List MaintenanceWindow → Type 0
  Starts t [] = ⊥
  Starts t (w ∷ ws) = (get_next_window_start c w now ≡ some t) ⊎ Starts t ws

  -- If there is one, it is the start of one of the windows.
  abbrev pub IsStart : Option Instant → List MaintenanceWindow → Type 0
  IsStart none ws = Unit
  IsStart (some t) ws = Starts t ws

  abbrev pub IsBefore : Option Instant → MaintenanceWindow → Type 0
  IsBefore t w = (u : Instant) → get_next_window_start c w now ≡ some u → NoLater t u

  NoLater-earlier :
      (acc : Option Instant) (start : Option Instant) (u : Instant)
      → (acc ≡ some u) ⊎ (start ≡ some u)
      → NoLater (earlier acc start) u
  NoLater-earlier acc start u h = ground arith

  NoLater-trans :
      (r acc : Option Instant) (u : Instant)
      → ((a : Instant) → acc ≡ some a → NoLater r a)
      → NoLater acc u
      → NoLater r u
  NoLater-trans r none u h k = absurd k
  NoLater-trans none (some a) u h k = absurd (h a refl)
  NoLater-trans (some t) (some a) u h k = let i = h a refl in omega arith

  next_loop-NoLater :
      (ws : List MaintenanceWindow) (acc : Option Instant) (a : Instant)
      → acc ≡ some a
      → NoLater (next_loop c ws now acc) a
  unfolding next_loop
  next_loop-NoLater [] acc a e = ground arith
  next_loop-NoLater (w ∷ ws) acc a e =
      NoLater-trans _ (earlier acc (get_next_window_start c w now)) a
        (λ b. next_loop-NoLater ws (earlier acc (get_next_window_start c w now)) b)
        (NoLater-earlier acc (get_next_window_start c w now) a (inl e))

  next_loop-IsBefore :
      (ws : List MaintenanceWindow) (acc : Option Instant)
      → All (IsBefore (next_loop c ws now acc)) ws
  unfolding next_loop
  next_loop-IsBefore [] acc = tt
  next_loop-IsBefore (w ∷ ws) acc = (
    λ u e.
        NoLater-trans _ (earlier acc (get_next_window_start c w now)) u
          (λ b. next_loop-NoLater ws (earlier acc (get_next_window_start c w now)) b)
          (NoLater-earlier acc (get_next_window_start c w now) u (inr e)),
    next_loop-IsBefore ws (earlier acc (get_next_window_start c w now)),
  )

  earlier_cases :
      (acc : Option Instant) (start : Option Instant) (t : Instant)
      → earlier acc start ≡ some t
      → (acc ≡ some t) ⊎ (start ≡ some t)
  earlier_cases acc start t e = ground arith

  next_loop-Starts :
      (ws : List MaintenanceWindow) (acc : Option Instant) (t : Instant)
      → next_loop c ws now acc ≡ some t
      → (acc ≡ some t) ⊎ Starts t ws
  unfolding next_loop
  next_loop-Starts [] acc t e = inl e
  next_loop-Starts (w ∷ ws) acc t e =
      elim (next_loop-Starts ws (earlier acc (get_next_window_start c w now)) t e) [
        | inr later ↦ inr (inr later)
        | inl here ↦ elim (earlier_cases acc (get_next_window_start c w now) t here) [
          | inl old ↦ inl old
          | inr new ↦ inr (inl new)
        ]
      ]

  next_loop-IsStart :
      (ws : List MaintenanceWindow) (start : Option Instant)
      → next_loop c ws now none ≡ start
      → IsStart start ws
  next_loop-IsStart ws none e = tt
  next_loop-IsStart ws (some t) e = ground (arith, next_loop-Starts ws none t e)

  -- The next maintenance window starts no later than the next start of any window, and it is the next
  -- start of one of them; so there is none only where no window has a next start.
  pub get_next_maintenance_window_earliest :
      (config : OptimizerConfig)
      → let start = get_next_maintenance_window c now config in
        All (IsBefore start) config.spec.maintenance_windows
        × IsStart start config.spec.maintenance_windows
  unfolding get_next_maintenance_window
  get_next_maintenance_window_earliest config = (
    next_loop-IsBefore config.spec.maintenance_windows none,
    next_loop-IsStart config.spec.maintenance_windows _ refl,
  )
