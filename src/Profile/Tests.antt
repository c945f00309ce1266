-- ===== src/Profile/Tests.antt =====
-- The resolver run with a scanner that reads two texts, and the properties applied to concrete settings.
use intelligent_cluster_opti.Prelude.{◌≡◌, refl, false, none, some, ◌&&◌, if◌then◌else◌, str_eq}
use intelligent_cluster_opti.Prelude.Int.{pos, wrap64}
use intelligent_cluster_opti.Prelude.Float64.{of_mantissa, scale_float, to_int64}
use intelligent_cluster_opti.Prelude.Dict.{lookup, insert}
use intelligent_cluster_opti.Api.{OptimizerConfig}
use intelligent_cluster_opti.Profile.{
  production_profile, new_profile_manager, register_profile, get_profile,
}
use intelligent_cluster_opti.Profile.Resolver.{
  Scanner, ResolvedSettings, override_profile, apply_spec_overrides, override_memory,
  parse_cpu_to_millicores, parse_memory_to_megabytes, scale64, of_profile, balanced_defaults,
  resolve_from_profile, resolve_from_spec, resolve,
}
use intelligent_cluster_opti.Profile.Modes.{resolve-dry_run}
use intelligent_cluster_opti.Profile.Ranges.{IsResolved, resolve-IsResolved}
use intelligent_cluster_opti.Webhook.Tests.{plain, config, accepts}

-- Of "%dm" it reads "500m", of "%f" it reads "1.4", of "%dGi" it reads "128Gi".
abbrev pub scanner : Scanner
scanner = record {
  parse_duration = λ s. if str_eq s "1h" then some (pos 3_600_000_000_000) else none;
  scan_int = λ text format.
      if str_eq text "500m" && str_eq format "%dm"
      then some (pos 500)
      else if str_eq text "128Gi" && str_eq format "%dGi"
      then some (pos 128)
      else none;
  scan_float = λ text. if str_eq text "1.4" then some (of_mantissa 6305039478318694) else none;
  unrepresentable = pos 0;
}

reads_millicores : parse_cpu_to_millicores scanner "500m" ≡ pos 500
unfolding parse_cpu_to_millicores
reads_millicores = refl

reads_cores : parse_cpu_to_millicores scanner "1.4" ≡ pos 1400
unfolding parse_cpu_to_millicores scale_float to_int64 of_mantissa
reads_cores = refl

reads_gibibytes : parse_memory_to_megabytes scanner "128Gi" ≡ pos 131072
unfolding parse_memory_to_megabytes scale64 wrap64
reads_gibibytes = refl

-- The default of a resource without a profile.
abbrev defaults : ResolvedSettings
defaults = balanced_defaults scanner config.spec

resolves : resolve scanner new_profile_manager config ≡ some (resolve_from_spec scanner config.spec)
unfolding resolve resolve_from_spec
resolves = refl

-- A limit whose maximum is not understood: the least memory comes out above the greatest.
crosses :
    (override_memory scanner defaults
      (some (record { min = "128Gi"; max = "1Ti" }))).min_memory_megabytes
    ≡ pos 131072
unfolding override_memory parse_memory_to_megabytes balanced_defaults scale64 wrap64
crosses = refl

crosses_max :
    (override_memory scanner defaults
      (some (record { min = "128Gi"; max = "1Ti" }))).max_memory_megabytes
    ≡ pos 65536
unfolding override_memory parse_memory_to_megabytes balanced_defaults scale64 wrap64
crosses_max = refl

resolve-IsResolved_example : IsResolved (resolve_from_spec scanner config.spec)
resolve-IsResolved_example =
    resolve-IsResolved scanner plain config (resolve_from_spec scanner config.spec) accepts resolves

-- The production profile, in which the mode is to be dry-run, on a resource that leaves it out.
abbrev careful : OptimizerConfig
careful = record config { spec = record (config.spec) { profile = "production" } }

abbrev production_settings : ResolvedSettings
production_settings =
    apply_spec_overrides scanner (of_profile scanner "production" production_profile.settings)
      careful.spec

resolves_production : resolve scanner new_profile_manager careful ≡ some production_settings
unfolding resolve resolve_from_profile get_profile lookup new_profile_manager register_profile
    insert override_profile
resolves_production = refl

resolve-dry_run_example : production_settings.dry_run ≡ false
resolve-dry_run_example =
    resolve-dry_run scanner new_profile_manager careful production_settings resolves_production
