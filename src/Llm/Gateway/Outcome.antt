-- ===== src/Llm/Gateway/Outcome.antt =====
-- What ParcelPilotLLMGateway.complete does, against the first candidate whose failure is not
-- transient.
use parcelpilot_ops_copilot.Prelude.{
  ℕ, ◌+◌, ◌≡◌, ◌↔◌, ◌⊎◌, inl, inr, refl, true, false, List, [], ◌∷◌, ◌++◌, arith,
}
use parcelpilot_ops_copilot.Llm.Types.{
  LlmRequest, LlmResponse, ProviderError, Answer, returned, failed, is_retryable_provider_error,
}
use parcelpilot_ops_copilot.Llm.Gateway.{
  Candidate, ProviderAttempt, answered, non_retryable_provider_error, all_providers_failed_error,
  call, failure_attempt, complete, complete_from,
}

-- A failure after which another try makes sense.
abbrev pub IsTransient : {A : Type 0} → Answer A → Type 0
IsTransient (returned a) = ⊥
IsTransient (failed exc) = is_retryable_provider_error exc ≡ true

pub Answer-cases :
    {A : Type 0} (answer : Answer A)
    → ((a : A) × (answer ≡ returned a)) ⊎ ((exc : ProviderError) × (answer ≡ failed exc))
Answer-cases (returned a) = inl (a, refl)
Answer-cases (failed exc) = inr (exc, refl)

module _ {Text : Type 0} (request : LlmRequest Text) where
  -- Every candidate up to one with the property fails transiently.
  abbrev pub Reaches : (Candidate Text → Type 0) → List (Candidate Text) → Type 0
  Reaches P [] = ⊥
  Reaches P (candidate ∷ candidates) =
      P candidate ⊎ (IsTransient (call request candidate) × Reaches P candidates)

  abbrev pub AllTransient : List (Candidate Text) → Type 0
  AllTransient [] = Unit
  AllTransient (candidate ∷ candidates) =
      IsTransient (call request candidate) × AllTransient candidates

  abbrev pub Answers : LlmResponse → Candidate Text → Type 0
  Answers response candidate = call request candidate ≡ returned response

  -- The candidate fails for good, and this is the record of it.
  abbrev pub Stops : ProviderAttempt → Candidate Text → Type 0
  Stops attempt candidate =
      (exc : ProviderError) × (call request candidate ≡ failed exc)
      × (is_retryable_provider_error exc ≡ false)
      × (failure_attempt request candidate exc ≡ attempt)

  complete_from-answered :
      (n : ℕ) (tried : List ProviderAttempt) (cs : List (Candidate Text)) (r : LlmResponse)
      → (complete_from request n tried cs).0 ≡ answered r ↔ Reaches (Answers r) cs
  complete_from-answered n tried [] r = ((λ h. cc), (λ h. absurd h))
  complete_from-answered n tried (c ∷ cs) r = elim (Answer-cases (call request c)) [
    | inl (a, e) ↦ rw e ((λ h. inl cc), (λ h. ground arith))
    | inr (exc, e) ↦
        let next = tried ++ failure_attempt request c exc ∷ [] in
        let ih = complete_from-answered (n + 1) next cs r in
        rw e (ground (arith, ih.0), ground (arith, ih.1))
  ]

  complete_from-stopped :
      (n : ℕ) (tried : List ProviderAttempt) (cs : List (Candidate Text)) (a : ProviderAttempt)
      → (complete_from request n tried cs).0 ≡ non_retryable_provider_error a ↔ Reaches (Stops a) cs
  complete_from-stopped n tried [] a = ((λ h. cc), (λ h. absurd h))
  complete_from-stopped n tried (c ∷ cs) a = elim (Answer-cases (call request c)) [
    | inl (r, e) ↦ rw e ((λ h. cc), (λ h. ground arith))
    | inr (exc, e) ↦
        let next = tried ++ failure_attempt request c exc ∷ [] in
        let ih = complete_from-stopped (n + 1) next cs a in
        rw e (ground (arith, ih.0), ground (arith, ih.1))
  ]

  complete_from-exhausted :
      (n : ℕ) (tried : List ProviderAttempt) (cs : List (Candidate Text))
      → ((l : List ProviderAttempt) × ((complete_from request n tried cs).0
            ≡ all_providers_failed_error l))
        ↔ AllTransient cs
  complete_from-exhausted n tried [] = ((λ h. tt), (λ h. (tried, refl)))
  complete_from-exhausted n tried (c ∷ cs) = elim (Answer-cases (call request c)) [
    | inl (r, e) ↦ rw e ((λ h. cc), (λ h. ground arith))
    | inr (exc, e) ↦
        let next = tried ++ failure_attempt request c exc ∷ [] in
        let ih = complete_from-exhausted (n + 1) next cs in
        rw e (ground (arith, ih.0), ground (arith, ih.1))
  ]

  -- The gateway answers, stops for good, or reports that all providers failed, exactly as the first
  -- candidate whose failure is not transient answers or fails, or as there is none such.
  pub complete-Reaches :
      (candidates : List (Candidate Text)) (response : LlmResponse) (attempt : ProviderAttempt)
      → ((complete request candidates).0 ≡ answered response
          ↔ Reaches (Answers response) candidates)
        × ((complete request candidates).0 ≡ non_retryable_provider_error attempt
            ↔ Reaches (Stops attempt) candidates)
        × (((attempts : List ProviderAttempt) × ((complete request candidates).0
                ≡ all_providers_failed_error attempts))
            ↔ AllTransient candidates)
  unfolding complete
  complete-Reaches candidates response attempt = (
    complete_from-answered 0 [] candidates response,
    complete_from-stopped 0 [] candidates attempt,
    complete_from-exhausted 0 [] candidates,
  )
