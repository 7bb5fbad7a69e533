-- ===== src/Schedule.antt =====
-- Runs of a transition system under a schedule that is fair to its threads.
use pokemon_cpp_server.Common.{ℕ, zero, suc, ◌+◌, ◌≡◌, subst, ◌⊎◌, inl, inr, Option, some, arith}

module _ {S E : Type 0} (step : E → S → S) where
  -- The state after the first `n` events.
  unfoldable pub run : (ℕ → E) → ℕ → S → S
  run schedule zero p = p
  run schedule (suc n) p = run (λ k. schedule (suc k)) n (step (schedule 0) p)

zero_add : (n : ℕ) → 0 + n ≡ n
zero_add n = omega arith

module _ {E T : Type 0} (thread : E → Option T) where
  -- Every thread moves again and again.
  abbrev pub IsFair : (ℕ → E) → Type 0
  IsFair schedule = (t : T) (n : ℕ) → (m : ℕ) × (thread (schedule (n + m)) ≡ some t)

  tail-IsFair : (schedule : ℕ → E) → IsFair schedule → IsFair (λ k. schedule (suc k))
  tail-IsFair schedule fair t n =
      let r = fair t (suc n) in
      let e : suc n + r.0 ≡ suc (n + r.0) = omega arith in
      (r.0, subst (λ k. thread (schedule k) ≡ some t) e r.1)

module _ {S E T : Type 0} (step : E → S → S) (thread : E → Option T) where
  -- From `p` the schedule comes to a state of `Q`.
  pub data Eventually (Q : S → Type 0) : (ℕ → E) → S → Type 0 where
    now : (schedule : ℕ → E) (p : S) → Q p → Eventually Q schedule p
    later :
        (schedule : ℕ → E) (p : S)
        → Eventually Q (λ k. schedule (suc k)) (step (schedule 0) p)
        → Eventually Q schedule p

  -- Every fair schedule takes a state of `P` to one of `Q`.
  abbrev pub LeadsTo : (S → Type 0) → (S → Type 0) → Type 0
  LeadsTo P Q =
      (p : S) → P p → (schedule : ℕ → E) → IsFair thread schedule → Eventually Q schedule p

  and_then :
      {Q R : S → Type 0} {schedule : ℕ → E} {p : S}
      → LeadsTo Q R
      → IsFair thread schedule
      → Eventually Q schedule p
      → Eventually R schedule p
  and_then next fair (now schedule p q) = next p q schedule fair
  and_then next fair (later schedule p e) =
      later schedule p (and_then next (tail-IsFair thread schedule fair) e)

  pub leads_trans : {P Q R : S → Type 0} → LeadsTo P Q → LeadsTo Q R → LeadsTo P R
  leads_trans first next p h schedule fair = and_then next fair (first p h schedule fair)

  pub leads_now : {P Q : S → Type 0} → ((p : S) → P p → Q p) → LeadsTo P Q
  leads_now f p h schedule fair = now schedule p (f p h)

  -- Every event keeps `P` or brings `Q`, and a move of the thread `t` brings `Q`.
  pub record Ensures (t : T) (P Q : S → Type 0) : Type 0 where
    pub keeps : (e : E) (p : S) → P p → P (step e p) ⊎ Q (step e p)
    pub brings : (e : E) (p : S) → thread e ≡ some t → P p → Q (step e p)

  pub leads_by : {t : T} {P Q : S → Type 0} → Ensures t P Q → LeadsTo P Q
  leads_by {t} {P} {Q} rule p h schedule fair =
      go (fair t 0).0 schedule p h
        (subst (λ k. thread (schedule k) ≡ some t) (zero_add (fair t 0).0) (fair t 0).1)
    where
      go :
          (m : ℕ) (schedule : ℕ → E) (p : S)
          → P p
          → thread (schedule m) ≡ some t
          → Eventually Q schedule p
      go zero schedule p h e = later schedule p (now _ _ (rule.brings (schedule 0) p e h))
      go (suc m) schedule p h e = elim (rule.keeps (schedule 0) p h) [
        | inl k ↦ later schedule p (go m (λ k. schedule (suc k)) _ k e)
        | inr q ↦ later schedule p (now _ _ q)
      ]

  pub eventually-run :
      {Q : S → Type 0} {schedule : ℕ → E} {p : S}
      → Eventually Q schedule p
      → (n : ℕ) × Q (run step schedule n p)
  unfolding run
  eventually-run (now schedule p q) = (0, q)
  eventually-run (later schedule p e) = let r = eventually-run e in (suc r.0, r.1)

module _ {E : Type 0} where
  -- The schedule after its first `n` events.
  unfoldable pub after : ℕ → (ℕ → E) → ℕ → E
  after zero schedule = schedule
  after (suc n) schedule = after n (λ k. schedule (suc k))

  pub after-IsFair :
      {T : Type 0} (thread : E → Option T) (n : ℕ) (schedule : ℕ → E)
      → IsFair thread schedule
      → IsFair thread (after n schedule)
  unfolding after
  after-IsFair thread zero schedule fair = fair
  after-IsFair thread (suc n) schedule fair =
      after-IsFair thread n _ (tail-IsFair thread schedule fair)

module _ {S E T : Type 0} (step : E → S → S) (thread : E → Option T) where
  pub eventually_after :
      {Q : S → Type 0} (n : ℕ) (schedule : ℕ → E) (p : S)
      → Eventually step thread Q (after n schedule) (run step schedule n p)
      → Eventually step thread Q schedule p
  unfolding after run
  eventually_after zero schedule p e = e
  eventually_after (suc n) schedule p e = later schedule p (eventually_after n _ _ e)
