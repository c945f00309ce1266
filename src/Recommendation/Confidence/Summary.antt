-- ===== src/Recommendation/Confidence/Summary.antt =====
-- pkg/recommendation/confidence.go: the summary of the samples. The two slices of samples, which their
-- only caller makes of one list, are one list of pairs. The square root is `math.Sqrt`.
pub mod Times
use intelligent_cluster_opti.Prelude.{
  String, Bool, true, false, not, ◌&&◌, Option, none, some, List, [], ◌∷◌, map, length,
  if◌then◌else◌, ltb,
}
use intelligent_cluster_opti.Prelude.Int.{ℤ, pos, ◌+ℤ◌, ◌*ℤ◌, eqb_ℤ, ltb_ℤ, leb_ℤ, wrap64}
use intelligent_cluster_opti.Prelude.Float64.{
  Float64, Numerics, finite, ltb_float, leb_float, of_ℕ, of_ℤ, constant, add_float, sub_float,
  mul_float, div_float,
}
use intelligent_cluster_opti.Prelude.Exchange.{exchange_sort}
use intelligent_cluster_opti.Api.{Instant, Duration, zero_time, sub_time}

pub record MetricsSummary : Type 0 where
  pub sample_count : ℤ  -- int
  pub oldest_sample : Instant
  pub newest_sample : Instant
  pub mean : Float64
  pub std_dev : Float64
  pub min : ℤ  -- int64
  pub max : ℤ  -- int64
  pub time_gaps : List Duration
  pub expected_interval : Duration

-- What the first loop over the samples keeps.
pub record Extremes : Type 0 where
  pub min : ℤ
  pub max : ℤ
  pub oldest : Instant
  pub newest : Instant
  pub sum : Float64

abbrev widen : Instant × ℤ → Extremes → Extremes
widen (t, v) e = record {
  min = if ltb_ℤ v e.min then v else e.min;
  max = if ltb_ℤ e.max v then v else e.max;
  oldest = if ltb_ℤ t e.oldest then t else e.oldest;
  newest = if ltb_ℤ e.newest t then t else e.newest;
  sum = add_float e.sum (of_ℤ v);
}

pub extremes_loop : List (Instant × ℤ) → Extremes → Extremes
extremes_loop [] e = e
extremes_loop (sample ∷ samples) e = extremes_loop samples (widen sample e)

pub squares_loop : Float64 → List (Instant × ℤ) → Float64 → Float64
squares_loop mean [] sum = sum
squares_loop mean ((t, v) ∷ samples) sum =
    let diff = sub_float (of_ℤ v) mean in
    squares_loop mean samples (add_float sum (mul_float diff diff))

-- `times[j].Before(times[i])`
abbrev pub is_before : Instant → Instant → Bool
is_before earlier later = ltb_ℤ later earlier

unfoldable pub sort_time_slice : List Instant → List Instant
sort_time_slice times = exchange_sort is_before times

-- The gaps between neighbours that exceed the threshold.
pub gaps_loop : Duration → Instant → List Instant → List Duration
gaps_loop threshold previous [] = []
gaps_loop threshold previous (t ∷ times) =
    let rest = gaps_loop threshold t times in
    let gap = sub_time t previous in if ltb_ℤ threshold gap then gap ∷ rest else rest

unfoldable pub gaps_between : Duration → List Instant → List Duration
unfolding gaps_loop
gaps_between threshold [] = []
gaps_between threshold (t ∷ times) = gaps_loop threshold t times

-- `expectedInterval * 2`
unfoldable pub time_gaps : Duration → List Instant → List Duration
unfolding gaps_between sort_time_slice
time_gaps expected_interval times =
    if ltb_ℤ (pos 0) expected_interval && ltb 1 (length times)
    then gaps_between (wrap64 (pos 2 *ℤ expected_interval)) (sort_time_slice times)
    else []

unfoldable pub compute_metrics_summary :
    (Float64 → Float64) → Instant × ℤ → List (Instant × ℤ) → Duration → MetricsSummary
unfolding extremes_loop squares_loop time_gaps
compute_metrics_summary sqrt (t, v) samples expected_interval =
    let all = (t, v) ∷ samples in
    let n = pos (length all) in
    let e =
      extremes_loop all
        (record { min = v; max = v; oldest = t; newest = t; sum = finite (pos 0) }) in
    let mean = div_float e.sum (of_ℤ n) in
    record {
      sample_count = n;
      oldest_sample = e.oldest;
      newest_sample = e.newest;
      mean = mean;
      std_dev = sqrt (div_float (squares_loop mean all (finite (pos 0))) (of_ℤ n));
      min = e.min;
      max = e.max;
      time_gaps = time_gaps expected_interval (map (λ s. s.0) all);
      expected_interval = expected_interval;
    }
