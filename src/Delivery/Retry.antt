-- ===== src/Delivery/Retry.antt =====
-- The retry loop of delivery.py, for every way that its attempts can end.
use hermes_stagewhisper_plug.Prelude.{
  ℕ, zero, suc, ◌+◌, ◌*◌, ◌^◌, ◌≤◌, ◌<◌, ◌≡◌, refl, ◌↔◌, ◌⊎◌, inl, inr, ◌∙◌, ap, sym, true, List,
  [], ◌∷◌, arith, lt→ltb,
}
use native.Mathlib.Decide.{ℕ_discrete}
use hermes_stagewhisper_plug.Delivery.{
  callback_retry_backoff, CallbackAttemptOutcome, delivered, retryable_failure, permanent_failure,
  Attempt, outcome_of, retry_from, retry_callback, callback_max_attempts,
}

module _ (post : ℕ → Attempt) where
  -- attempt `k` delivers, and each one from `i` to it failed in a way worth a retry
  pub record Delivers (i k : ℕ) : Type 0 where
    pub done : outcome_of (post k) ≡ delivered
    pub before : (j : ℕ) → i ≤ j → j < k → outcome_of (post j) ≡ retryable_failure

  outcome-cases :
      (o : CallbackAttemptOutcome)
      → (o ≡ delivered) ⊎ ((o ≡ retryable_failure) ⊎ (o ≡ permanent_failure))
  outcome-cases delivered = inl refl
  outcome-cases retryable_failure = inr (inl refl)
  outcome-cases permanent_failure = inr (inr refl)

  from_first :
      (i j : ℕ)
      → outcome_of (post i) ≡ retryable_failure
      → i ≤ j
      → (i + 1 ≤ j → outcome_of (post j) ≡ retryable_failure)
      → outcome_of (post j) ≡ retryable_failure
  from_first i j e p later = elim (ℕ_discrete i j) [
    | yes same ↦ rw (← same) e
    | no other ↦ later (omega arith)
  ]

  more_retried :
      (i left : ℕ)
      → outcome_of (post i) ≡ retryable_failure
      → ((retry_from post i (suc left)).result ≡ (retry_from post (i + 1) left).result)
        × ((retry_from post i (suc left)).attempts ≡ (retry_from post (i + 1) left).attempts)
  unfolding retry_from
  more_retried i left h = ground arith

  retry_sound :
      (i left : ℕ)
      → (retry_from post i left).result ≡ true
      → (k : ℕ) × (i ≤ k)
        × (k < i + left)
        × Delivers i k
        × ((retry_from post i left).attempts ≡ k + 1)
  unfolding retry_from
  retry_sound i zero h = cc
  retry_sound i (suc left) h = elim (outcome-cases (outcome_of (post i))) [
    | inl e ↦ (
      i,
      omega arith,
      omega arith,
      record { done = e; before = λ j p q. absurd (omega arith) },
      rw (e, retry_from),
    )
    | inr (inl e) ↦
        (let m = more_retried i left e in
          let r = retry_sound (i + 1) left (sym m.0 ∙ h) in
          (
            r.0,
            omega (arith, r.1),
            omega (arith, r.2),
            record {
              done = r.3.done;
              before = λ j p q. from_first i j e p (λ later. r.3.before j later q);
            },
            m.1 ∙ r.4,
          ))
    | inr (inr e) ↦ absurd (ground arith)
  ]

  retry_complete :
      (i left k : ℕ) → i ≤ k → k < i + left → Delivers i k → (retry_from post i left).result ≡ true
  unfolding retry_from
  retry_complete i zero k p q d = absurd (omega arith)
  retry_complete i (suc left) k p q d = elim (ℕ_discrete i k) [
    | yes same ↦ rw (rw (← same) at d.done, retry_from)
    | no other ↦
        (let e = d.before i (omega arith) (omega arith) in
          (more_retried i left e).0
          ∙ retry_complete (i + 1) left k (omega arith) (omega arith)
              (record { done = d.done; before = λ j r s. d.before j (omega arith) s }))
  ]

  -- the sleeps before attempts i + 1, i + 2, …
  abbrev pub backoffs : ℕ → ℕ → List ℕ
  backoffs i zero = []
  backoffs i (suc n) = (callback_retry_backoff * 2 ^ i) ∷ backoffs (i + 1) n

  retry-sleeps :
      (i left : ℕ)
      → i + suc left ≡ callback_max_attempts
      → (n : ℕ) × (n ≤ left)
        × ((retry_from post i (suc left)).attempts ≡ i + suc n)
        × ((retry_from post i (suc left)).sleeps ≡ backoffs i n)
  unfolding retry_from
  retry-sleeps i zero h = (0, omega arith, ground arith, ground arith)
  retry-sleeps i (suc left) h = elim (outcome-cases (outcome_of (post i))) [
    | inl e ↦ (0, omega arith, rw (e, retry_from) (omega arith), rw (e, retry_from))
    | inr (inr e) ↦ (0, omega arith, rw (e, retry_from) (omega arith), rw (e, retry_from))
    | inr (inl e) ↦
        (let r = retry-sleeps (i + 1) left (omega arith) in
          (
            suc r.0,
            omega (arith, r.1),
            (more_retried i (suc left) e).1 ∙ omega (arith, r.2),
            rw (e, retry_from)
                (rw (lt→ltb (i + 1) callback_max_attempts (omega arith))
                  (ap (◌∷◌ (callback_retry_backoff * 2 ^ i)) r.3)),
          ))
  ]

  -- A reply is delivered exactly when one of the first four attempts delivers it and all before
  -- that one failed in a way worth a retry. At least one attempt is made and at most four, with
  -- one sleep between two of them, of 250 ms at first and each time twice as long.
  pub retry_callback-exact :
      ((retry_callback post).result ≡ true ↔ ((k : ℕ) × (k < callback_max_attempts) × Delivers 0 k))
      × (n : ℕ) × (n < callback_max_attempts)
      × ((retry_callback post).attempts ≡ suc n)
      × ((retry_callback post).sleeps ≡ backoffs 0 n)
  unfolding retry_callback
  retry_callback-exact =
      let r = retry-sleeps 0 3 (omega arith) in
      (
        (
          λ h. (let s = retry_sound 0 callback_max_attempts h in (s.0, s.2, s.3)),
          λ h. retry_complete 0 callback_max_attempts h.0 (omega arith) h.1 h.2,
        ),
        r.0,
        omega (arith, r.1),
        omega (arith, r.2),
        r.3,
      )
