-- ===== src/Pressure/Tests.antt =====
-- Runs of the controller of crates/brain-service/src/backpressure.rs, with whole percents.
use agent_knowledge_base_cod.Common.{ℕ, ◌*◌, ◌/◌, ◌≡◌, ◌≢◌, refl, ap, [], ◌∷◌, leb}
use agent_knowledge_base_cod.Pressure.{
  FloatApi, DiskSample, DegradationState, nothing_paused, PressurePolicy, evaluate, run,
}
use agent_knowledge_base_cod.Pressure.Levels.{Refines, readings, steps, run-Refines}
use agent_knowledge_base_cod.Pressure.Recovery.{state_after}

abbrev whole : FloatApi ℕ
whole = record {
  percent_le = leb;
  zero_percent = 0;
  percent_of = λ available total. available * 100 / total;
}

abbrev test_policy : PressurePolicy ℕ
test_policy = record {
  warning_free_bytes = 50;
  critical_free_bytes = 20;
  emergency_free_bytes = 5;
  recovery_free_bytes = 60;
  warning_free_percent = 10;
  critical_free_percent = 5;
  recovery_free_percent = 12;
  recovery_checks = 2;
}

abbrev with_free : ℕ → DiskSample
with_free n = record { available_bytes = n; total_bytes = 100 }

run-Refines_example :
    Refines whole test_policy
      (run whole
        (record { policy = test_policy; state = nothing_paused; healthy_recovery_checks = 0 })
        (with_free 40 ∷ with_free 3 ∷ []))
      (steps 2 (readings whole test_policy (with_free 40 ∷ with_free 3 ∷ [])))
run-Refines_example = run-Refines whole test_policy (with_free 40 ∷ with_free 3 ∷ [])

paused_before : state_after whole test_policy (with_free 70 ∷ with_free 15 ∷ []) ≢ nothing_paused
unfolding run evaluate
paused_before e = cc (ap (λ (s : DegradationState). s.provider_refresh_paused) e)

clear_now :
    state_after whole test_policy (with_free 80 ∷ with_free 70 ∷ with_free 15 ∷ []) ≡ nothing_paused
unfolding run evaluate
clear_now = refl
