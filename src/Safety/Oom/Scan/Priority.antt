-- ===== src/Safety/Oom/Scan/Priority.antt =====
-- The priority rises with the number of kills and with how recent the last one is.
use intelligent_cluster_opti.Prelude.{ℕ, ◌≤◌, ◌≡◌, Bool, true, ◌||◌, arith, if◌then◌else◌}
use intelligent_cluster_opti.Prelude.Int.{ℤ, pos, ◌≤ℤ◌, ◌-ℤ◌, -ℤ_parts, ltb_ℤ}
use intelligent_cluster_opti.Prelude.Float64.{Float64, ltb_float, of_ℕ}
use intelligent_cluster_opti.Api.{Instant, Duration, saturate, sub_time}
use intelligent_cluster_opti.Safety.Oom.Scan.{
  OomPriority, OomCheckResult, no_priority, low, medium, high, critical, calculate_priority,
}

-- A shorter time is not more hours.
abbrev pub IsMonotone : (Duration → Float64) → Type 0
IsMonotone hours =
    (a b : Duration) (bound : Float64)
    → a ≤ℤ b
    → ltb_float (hours b) bound ≡ true
    → ltb_float (hours a) bound ≡ true

-- The number of the constant.
abbrev pub rank : OomPriority → ℕ
rank no_priority = 0
rank low = 1
rank medium = 2
rank high = 3
rank critical = 4

saturate-le : (a b : ℤ) → a ≤ℤ b → saturate a ≤ℤ saturate b
saturate-le a b h = ground (arith, h)

sub_time-le : (now t u : Instant) → t ≤ℤ u → sub_time now u ≤ℤ sub_time now t
unfolding sub_time
sub_time-le now t u h =
    saturate-le (now -ℤ u) (now -ℤ t) (omega (arith, h, -ℤ_parts now u, -ℤ_parts now t))

-- The priority of a workload with kills, of the three tests.
abbrev of_tests : Bool → Bool → Bool → OomPriority
of_tests a b c = if a then critical else if b then high else if c then medium else low

of_tests-le :
    (a b c a' b' c' : Bool)
    → (a ≡ true → a' ≡ true)
    → (b ≡ true → b' ≡ true)
    → (c ≡ true → c' ≡ true)
    → rank (of_tests a b c) ≤ rank (of_tests a' b' c')
of_tests-le a b c a' b' c' f g h = ground (arith, f, g, h)

or-le :
    (p q p' q' : Bool)
    → (p ≡ true → p' ≡ true)
    → (q ≡ true → q' ≡ true)
    → (p || q) ≡ true
    → (p' || q') ≡ true
or-le p q p' q' f g h = ground (arith, f, g, h)

more_kills : (k : ℕ) (m n : ℤ) → m ≤ℤ n → ltb_ℤ (pos k) m ≡ true → ltb_ℤ (pos k) n ≡ true
more_kills k m n h e = ground (arith, h, e)

-- If fewer hours are not longer: of two workloads with kills, the one with as many kills or more, and as
-- recent a last one or more so, has no lower a priority.
pub calculate_priority_mono :
    (hours : Duration → Float64) (now : Instant) (r r' : OomCheckResult)
    → IsMonotone hours
    → r.has_oom_history ≡ true
    → r'.has_oom_history ≡ true
    → r.total_oom_count ≤ℤ r'.total_oom_count
    → r.last_oom_time ≤ℤ r'.last_oom_time
    → rank (calculate_priority hours now r) ≤ rank (calculate_priority hours now r')
unfolding calculate_priority
calculate_priority_mono hours now r r' mono e e' m l =
    let sooner = mono (sub_time now r'.last_oom_time) (sub_time now r.last_oom_time) in
    let d = sub_time-le now r.last_oom_time r'.last_oom_time l in
    let one : (k n : ℕ)
        → (ltb_float (hours (sub_time now r.last_oom_time)) (of_ℕ k)
            || ltb_ℤ (pos n) r.total_oom_count)
          ≡ true
        → (ltb_float (hours (sub_time now r'.last_oom_time)) (of_ℕ k)
            || ltb_ℤ (pos n) r'.total_oom_count)
          ≡ true =
      λ k n.
        or-le _ _ _ _ (sooner (of_ℕ k) d) (more_kills n r.total_oom_count r'.total_oom_count m) in
    rw (e, e') (of_tests-le _ _ _ _ _ _ (one 1 20) (one 24 10) (one 168 3))
