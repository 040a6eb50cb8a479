-- ===== src/Pressure/Recovery.antt =====
-- When the controller of crates/brain-service/src/backpressure.rs lifts a pause.
use agent_knowledge_base_cod.Common.{
  ℕ, ◌+◌, ◌≤◌, ◌<◌, ◌≡◌, ◌≢◌, refl, ◌⊎◌, inl, inr, ap, ◌∙◌, sym, Bool-cases, List, [], ◌∷◌, leb,
  arith,
}
use agent_knowledge_base_cod.Pressure.{
  FloatApi, DiskSample, DegradationState, nothing_paused, PressurePolicy, run, saturating_succ_u8,
  u8_max,
}
use agent_knowledge_base_cod.Pressure.Levels.{
  Reading, emergency, critical, warning, between, recovered, Level, clear, warned, paused, blocked,
  state_of, lowered, steps, readings, run-Refines,
}

-- How many of the latest samples recovered without a break.
abbrev pub trailing : List Reading → ℕ
trailing [] = 0
trailing (recovered ∷ earlier) = trailing earlier + 1
trailing (emergency ∷ earlier) = 0
trailing (critical ∷ earlier) = 0
trailing (warning ∷ earlier) = 0
trailing (between ∷ earlier) = 0

streak-le : (checks : ℕ) (rs : List Reading) → (steps checks rs).streak ≤ trailing rs
streak-le checks [] = omega arith
streak-le checks (emergency ∷ rs) = omega arith
streak-le checks (critical ∷ rs) = omega arith
streak-le checks (warning ∷ rs) = omega arith
streak-le checks (between ∷ rs) = omega arith
streak-le checks (recovered ∷ rs) = ground (arith, streak-le checks rs)

lowered-ne-clear : (level : Level) → lowered level ≢ clear
lowered-ne-clear clear e = cc
lowered-ne-clear warned e = cc
lowered-ne-clear paused e = cc
lowered-ne-clear blocked e = cc

cleared_by :
    (checks : ℕ) (r : Reading) (rs : List Reading)
    → (steps checks rs).level ≢ clear
    → (steps checks (r ∷ rs)).level ≡ clear
    → checks ≤ trailing (r ∷ rs)
cleared_by checks emergency rs h e = cc
cleared_by checks critical rs h e = cc
cleared_by checks warning rs h e = absurd (lowered-ne-clear (steps checks rs).level e)
cleared_by checks between rs h e = absurd (h e)
cleared_by checks recovered rs h e =
    elim (Bool-cases (leb checks (saturating_succ_u8 (steps checks rs).streak))) [
      | inl enough ↦ ground (arith, enough, streak-le checks rs)
      | inr few ↦ absurd (h (rw few at e))
    ]

-- Either all is clear, or the streak counts the samples and is not yet long enough.
abbrev Waiting : ℕ → List Reading → Type 0
Waiting checks rs =
    ((steps checks rs).level ≡ clear)
    ⊎ (((steps checks rs).streak ≡ trailing rs) × ((steps checks rs).streak < checks))

steps-Waiting : (checks : ℕ) (rs : List Reading) → 0 < checks → checks ≤ u8_max → Waiting checks rs
steps-Waiting checks [] pos fits = inl refl
steps-Waiting checks (emergency ∷ rs) pos fits = inr (refl, pos)
steps-Waiting checks (critical ∷ rs) pos fits = inr (refl, pos)
steps-Waiting checks (warning ∷ rs) pos fits = inr (refl, pos)
steps-Waiting checks (between ∷ rs) pos fits = inr (refl, pos)
steps-Waiting checks (recovered ∷ rs) pos fits =
    elim (Bool-cases (leb checks (saturating_succ_u8 (steps checks rs).streak))) [
      | inl enough ↦ rw enough (inl refl)
      | inr few ↦ elim (steps-Waiting checks rs pos fits) [
        | inl done ↦ rw few (inl done)
        | inr (counted, short) ↦
            rw few
              (inr (omega (arith, counted, short, fits), ground (arith, counted, short, fits, few)))
      ]
    ]

clear_after :
    (checks : ℕ) (rs : List Reading)
    → 0 < checks
    → checks ≤ u8_max
    → checks ≤ trailing rs
    → (steps checks rs).level ≡ clear
clear_after checks rs pos fits long = elim (steps-Waiting checks rs pos fits) [
  | inl done ↦ done
  | inr (counted, short) ↦ absurd (omega (arith, counted, short, long))
]

clear_of_state : (level : Level) → state_of level ≡ nothing_paused → level ≡ clear
clear_of_state clear e = refl
clear_of_state warned e = cc (ap (λ (s : DegradationState). s.provider_refresh_paused) e)
clear_of_state paused e = cc (ap (λ (s : DegradationState). s.provider_refresh_paused) e)
clear_of_state blocked e = cc (ap (λ (s : DegradationState). s.provider_refresh_paused) e)

module _ {Percent : Type 0} (floats : FloatApi Percent) (policy : PressurePolicy Percent) where
  -- The state after the samples, the latest one first.
  abbrev pub state_after : List DiskSample → DegradationState
  state_after samples =
      (run floats (record { policy = policy; state = nothing_paused; healthy_recovery_checks = 0 })
        samples).state

  abbrev pub streak_of : List DiskSample → ℕ
  streak_of samples = trailing (readings floats policy samples)

  -- The last pause is lifted only by a sample that ends as many recovered ones in a row as the
  -- policy asks for.
  pause-lifted :
      (sample : DiskSample) (earlier : List DiskSample)
      → state_after earlier ≢ nothing_paused
      → state_after (sample ∷ earlier) ≡ nothing_paused
      → policy.recovery_checks ≤ streak_of (sample ∷ earlier)
  pause-lifted sample earlier before after =
      let rs = readings floats policy earlier in
      let (_, is, _) = run-Refines floats policy earlier in
      let (_, now_is, _) = run-Refines floats policy (sample ∷ earlier) in
      cleared_by policy.recovery_checks _ rs (λ e. before (is ∙ ap state_of e))
        (clear_of_state _ (sym now_is ∙ after))

  -- As many recovered samples in a row as the policy asks for, which are from 1 to 255, leave nothing
  -- paused.
  recovery-lifts :
      (samples : List DiskSample)
      → 0 < policy.recovery_checks
      → policy.recovery_checks ≤ u8_max
      → policy.recovery_checks ≤ streak_of samples
      → state_after samples ≡ nothing_paused
  recovery-lifts samples pos fits long =
      let (_, is, _) = run-Refines floats policy samples in
      is ∙ ap state_of (clear_after policy.recovery_checks _ pos fits long)
