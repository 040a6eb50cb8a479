-- ===== src/Pressure/Levels.antt =====
-- The controller of crates/brain-service/src/backpressure.rs as a machine of four levels.
use agent_knowledge_base_cod.Common.{
  ℕ, ◌≡◌, refl, true, false, List, [], ◌∷◌, leb, if◌then◌else◌, arith,
}
use agent_knowledge_base_cod.Pressure.{
  FloatApi, DiskSample, DegradationState, nothing_paused, all_paused, PressurePolicy,
  PressureController, saturating_succ_u8, is_emergency, is_critical, is_warning, is_recovered,
  evaluate, run,
}

-- How full the disk is, by one sample.
pub data Reading : Type 0 where
  emergency critical warning between recovered : Reading

pub data Level : Type 0 where
  clear warned paused blocked : Level

-- What each level pauses.
abbrev pub state_of : Level → DegradationState
state_of clear = nothing_paused
state_of warned = record nothing_paused {
  provider_refresh_paused = true;
  basic_memory_paused = true;
}
state_of paused = all_paused false
state_of blocked = all_paused true

-- The level and the number of recovered samples in a row.
pub record Machine : Type 0 where
  pub level : Level
  pub streak : ℕ

abbrev pub lowered : Level → Level
lowered clear = warned
lowered warned = warned
lowered paused = paused
lowered blocked = paused

abbrev pub step : ℕ → Reading → Machine → Machine
step checks emergency m = record { level = blocked; streak = 0 }
step checks critical m = record { level = paused; streak = 0 }
step checks warning m = record { level = lowered m.level; streak = 0 }
step checks between m = record m { streak = 0 }
step checks recovered m =
    if leb checks (saturating_succ_u8 m.streak)
    then record { level = clear; streak = 0 }
    else record m { streak = saturating_succ_u8 m.streak }

abbrev pub steps : ℕ → List Reading → Machine
steps checks [] = record { level = clear; streak = 0 }
steps checks (r ∷ earlier) = step checks r (steps checks earlier)

module _ {Percent : Type 0} (floats : FloatApi Percent) where
  abbrev pub reading : PressurePolicy Percent → DiskSample → Reading
  reading policy sample =
      if is_emergency floats policy sample
      then emergency
      else if is_critical floats policy sample
      then critical
      else if is_warning floats policy sample
      then warning
      else if is_recovered floats policy sample
      then recovered
      else between

  abbrev pub readings : PressurePolicy Percent → List DiskSample → List Reading
  readings policy [] = []
  readings policy (sample ∷ earlier) = reading policy sample ∷ readings policy earlier

  -- The controller is at the machine's level.
  abbrev pub Refines : PressurePolicy Percent → PressureController Percent → Machine → Type 0
  Refines policy c m =
      (c.policy ≡ policy) × (c.state ≡ state_of m.level) × (c.healthy_recovery_checks ≡ m.streak)

  evaluate-Refines :
      (policy : PressurePolicy Percent) (c : PressureController Percent) (level : Level)
      (streak : ℕ) (sample : DiskSample)
      → Refines policy c (record { level = level; streak = streak })
      → Refines policy (evaluate floats c sample) (
          step policy.recovery_checks
            (reading policy sample)
            (record { level = level; streak = streak }))
  unfolding evaluate
  evaluate-Refines policy c clear streak sample h = ground arith
  evaluate-Refines policy c warned streak sample h = ground arith
  evaluate-Refines policy c paused streak sample h = ground arith
  evaluate-Refines policy c blocked streak sample h = ground arith

  -- The state after any samples is that of the four levels: emergencies and critical samples set
  -- the level, a warning raises it to `warned` and lifts a block, and as many recovered samples in
  -- a row as the policy asks for clear it.
  pub run-Refines :
      (policy : PressurePolicy Percent) (samples : List DiskSample)
      → Refines policy
          (run floats
            (record { policy = policy; state = nothing_paused; healthy_recovery_checks = 0 })
            samples)
          (steps policy.recovery_checks (readings policy samples))
  unfolding run
  run-Refines policy [] = (refl, refl, refl)
  run-Refines policy (sample ∷ earlier) =
      evaluate-Refines policy _ (steps policy.recovery_checks (readings policy earlier)).level
        (steps policy.recovery_checks (readings policy earlier)).streak sample
        (run-Refines policy earlier)
