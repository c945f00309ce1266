-- ===== src/Cost/Pricing.antt =====
-- pkg/cost/calculator.go: prices.
use intelligent_cluster_opti.Prelude.{String, Option, none, some, [], ◌∷◌}
use intelligent_cluster_opti.Prelude.Float64.{Float64, constant}
use intelligent_cluster_opti.Prelude.Dict.{Dict, lookup}

pub record PricingModel : Type 0 where
  pub provider : String
  pub cpu_per_core_hour : Float64
  pub memory_per_gb_hour : Float64
  pub region : String
  pub tier : String

abbrev pub pricing_of : String → String → Float64 → Float64 → String → PricingModel
pricing_of provider region cpu memory tier = record {
  provider = provider;
  cpu_per_core_hour = cpu;
  memory_per_gb_hour = memory;
  region = region;
  tier = tier;
}

abbrev pub default_pricing : PricingModel
default_pricing = pricing_of "generic" "default" (constant 40 1000) (constant 5 1000) "on-demand"

abbrev pub default_pricing_models : Dict PricingModel
default_pricing_models =
    (
      "aws-us-east-1",
      pricing_of "aws" "us-east-1" (constant 416 10000) (constant 52 10000) "on-demand",
    )
    ∷ (
      "aws-us-east-1-spot",
      pricing_of "aws" "us-east-1" (constant 125 10000) (constant 16 10000) "spot",
    )
    ∷ (
      "gcp-us-central1",
      pricing_of "gcp" "us-central1" (constant 350 10000) (constant 47 10000) "on-demand",
    )
    ∷ (
      "azure-eastus",
      pricing_of "azure" "eastus" (constant 400 10000) (constant 50 10000) "on-demand",
    )
    ∷ ("default", default_pricing)
    ∷ []

-- A calculator is its pricing model.
unfoldable pub new_calculator : Option PricingModel → PricingModel
new_calculator none = default_pricing
new_calculator (some pricing) = pricing

unfoldable pub new_calculator_with_preset : String → PricingModel
unfolding new_calculator lookup
new_calculator_with_preset preset_name = new_calculator (lookup preset_name default_pricing_models)
