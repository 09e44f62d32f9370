-- ===== src/Llm/Pricing.antt =====
-- app/llm/pricing.py and its table pricing.json. A rate in dollars per million tokens is the cost of
-- one token in units of 1/1,000,000 dollar, so that a cost is exact.
use parcelpilot_ops_copilot.Prelude.{ℕ, ◌*◌, String, Option, none, some, List, [], ◌∷◌, lookup}
use parcelpilot_ops_copilot.Llm.Types.{CostEstimate}

pub record Rate : Type 0 where
  pub input_per_million_usd : ℕ
  pub output_per_million_usd : ℕ

abbrev pub rate : ℕ → ℕ → Rate
rate input output = record { input_per_million_usd = input; output_per_million_usd = output }

abbrev pub rates : List (String × Rate)
rates =
    ("claude-sonnet-5", rate 3 15)
    ∷ ("claude-opus-5", rate 15 75)
    ∷ ("claude-haiku-4-5-20251001", rate 1 5)
    ∷ ("mock-model", rate 0 0)
    ∷ []

abbrev pub cost_at : Option Rate → ℕ → ℕ → Option CostEstimate
cost_at none input_tokens output_tokens = none
cost_at (some r) input_tokens output_tokens = some (record {
  input_cost = input_tokens * r.input_per_million_usd;
  output_cost = output_tokens * r.output_per_million_usd;
})

-- `none` is the KeyError of a model without a price.
unfoldable pub estimate_cost : String → ℕ → ℕ → Option CostEstimate
estimate_cost model input_tokens output_tokens =
    cost_at (lookup model rates) input_tokens output_tokens
