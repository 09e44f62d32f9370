-- ===== src/Llm/Anthropic/Retries.antt =====
-- The retries of AnthropicProvider.complete.
use parcelpilot_ops_copilot.Prelude.{
  ℕ, ◌+◌, ◌*◌, ◌≤◌, ◌<◌, zero, suc, min, ◌≡◌, ◌⊎◌, inl, inr, refl, List, [], ◌∷◌, arith, length,
  Bool-cases, sym, ◌∙◌,
}
use mathlib.Core.Path.{subst}
use mathlib.Core.Bool.{false≢true}
use native.Mathlib.Decide.{ℕ_discrete}
use parcelpilot_ops_copilot.Llm.Types.{Answer, is_retryable_provider_error}
use parcelpilot_ops_copilot.Llm.Gateway.Outcome.{IsTransient, Answer-cases}
use parcelpilot_ops_copilot.Llm.Anthropic.{
  ClientMessage, RetryRun, backoff_delay, attempts_from, create_with_retries, power_of_two,
}

abbrev pub AllAtMost : ℕ → List ℕ → Type 0
AllAtMost bound [] = Unit
AllAtMost bound (d ∷ ds) = (d ≤ bound) × AllAtMost bound ds

module _ (base_delay max_delay : ℕ) (uniform : ℕ → ℕ → ℕ) (create : ℕ → Answer ClientMessage) where
  -- The calls from `first` on end at `last`: those before it failed transiently, it did not or it
  -- was the last one allowed, its answer is the run's, and each call but it was followed by one
  -- delay.
  pub record Ends (first limit last : ℕ) (run : RetryRun) : Type 0 where
    pub in_order : first ≤ last
    pub in_limit : last ≤ limit
    pub before : (j : ℕ) → first ≤ j → j < last → IsTransient (create j)
    pub decisive : (last ≡ limit) ⊎ ¬ IsTransient (create last)
    pub is_answer : run.answer ≡ create last
    pub is_count : run.retries ≡ last
    pub one_delay_each : first + length run.delays ≡ last
    pub short_delays : AllAtMost max_delay run.delays

  module _ (within : (n bound : ℕ) → uniform n bound ≤ bound) where
    backoff_delay-le : (n : ℕ) → backoff_delay base_delay max_delay uniform n ≤ max_delay
    unfolding backoff_delay
    backoff_delay-le n =
        let b = within n (min max_delay (base_delay * power_of_two n)) in omega arith

    Ends-here :
        (first limit : ℕ) {answer : Answer ClientMessage}
        → answer ≡ create first
        → first ≤ limit
        → (first ≡ limit) ⊎ ¬ IsTransient (create first)
        → Ends first limit first (record { answer = answer; retries = first; delays = [] })
    Ends-here first limit e bounded decides = record {
      in_order = omega arith;
      in_limit = bounded;
      before = λ j above below. absurd (omega arith);
      decisive = decides;
      is_answer = e;
      is_count = refl;
      one_delay_each = omega arith;
      short_delays = tt;
    }

    Ends-later :
        (first limit last : ℕ) (run : RetryRun)
        → IsTransient (create first)
        → Ends (first + 1) limit last run
        → Ends first limit last
            (record run { delays = backoff_delay base_delay max_delay uniform first ∷ run.delays })
    Ends-later first limit last run transient h = record {
      in_order = let k = h.in_order in omega arith;
      in_limit = h.in_limit;
      before = λ j above below. elim (ℕ_discrete first j) [
        | yes e ↦ subst (λ i. IsTransient (create i)) e transient
        | no n ↦ h.before j (omega arith) below
      ];
      decisive = h.decisive;
      is_answer = h.is_answer;
      is_count = h.is_count;
      one_delay_each = let k = h.one_delay_each in omega arith;
      short_delays = (backoff_delay-le first, h.short_delays);
    }

    attempts_from-Ends :
        (left first limit : ℕ)
        → first + left ≡ limit
        → (last : ℕ) × Ends first limit last
            (attempts_from base_delay max_delay uniform create left first first)
    attempts_from-Ends zero first limit h = elim (Answer-cases (create first)) [
      | inl (m, e) ↦ rw e (first, Ends-here first limit (sym e) (omega arith) (inl (omega arith)))
      | inr (exc, e) ↦ rw e (first, Ends-here first limit (sym e) (omega arith) (inl (omega arith)))
    ]
    attempts_from-Ends (suc left) first limit h = elim (Answer-cases (create first)) [
      | inl (m, e) ↦ rw e (first, Ends-here first limit (sym e) (omega arith) (inr (rw e λ k. k)))
      | inr (exc, e) ↦ elim (Bool-cases (is_retryable_provider_error exc)) [
        | inr t ↦ rw e (
            rw t (
              first,
              Ends-here first limit (sym e) (omega arith) (inr (rw e λ k. false≢true (sym t ∙ k))),
            ))
        | inl t ↦
            let (last, rest) = attempts_from-Ends left (first + 1) limit (omega arith) in
            rw e (
              rw t (
                last,
                Ends-later first limit last
                    (attempts_from base_delay max_delay uniform create left (first + 1) (first + 1))
                    (rw e t) rest,
              ))
      ]
    ]

    -- With delays drawn up to their bound, the provider calls its client at most once more than the
    -- retries allowed: each call before the last failed transiently, the last did not or was the
    -- last allowed, its answer is the result, `retries` counts the calls before it, and one delay
    -- of at most the maximum followed each of those.
    pub create_with_retries-Ends :
        (max_retries : ℕ)
        → (last : ℕ) × Ends 0 max_retries last
            (create_with_retries base_delay max_delay uniform create max_retries)
    unfolding create_with_retries
    create_with_retries-Ends max_retries =
        attempts_from-Ends max_retries 0 max_retries (omega arith)
