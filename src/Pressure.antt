-- ===== src/Pressure.antt =====
-- crates/brain-service/src/backpressure.rs: what the service pauses as the disk fills up. `Percent`
-- stands for `f64`, and `FloatApi` for what is computed with it.
pub mod Levels
pub mod Recovery
mod Tests
use Prim.Native.Nat.{min}
use agent_knowledge_base_cod.Common.{
  ℕ, ◌+◌, ◌==◌, ◌*◌, ◌&&◌, ◌||◌, Bool, true, false, List, [], ◌∷◌, leb, ltb, if◌then◌else◌, Result,
  ok, ◌>>=◌, ◌>>◌, ensure,
}

pub record DiskSample : Type 0 where
  pub available_bytes : ℕ
  pub total_bytes : ℕ

pub record DegradationState : Type 0 where
  pub provider_refresh_paused : Bool
  pub basic_memory_paused : Bool
  pub markdown_projection_paused : Bool
  pub consolidation_paused : Bool
  pub cold_cache_paused : Bool
  pub capture_blocked : Bool

-- `DegradationState::default`
abbrev pub nothing_paused : DegradationState
nothing_paused = record {
  provider_refresh_paused = false;
  basic_memory_paused = false;
  markdown_projection_paused = false;
  consolidation_paused = false;
  cold_cache_paused = false;
  capture_blocked = false;
}

abbrev pub all_paused : Bool → DegradationState
all_paused blocked = record {
  provider_refresh_paused = true;
  basic_memory_paused = true;
  markdown_projection_paused = true;
  consolidation_paused = true;
  cold_cache_paused = true;
  capture_blocked = blocked;
}

pub data PressureError : Type 0 where
  bytes_unordered percents_unordered checks_zero : PressureError

abbrev pub u8_max : ℕ
u8_max = 255

pub record PressurePolicy (Percent : Type 0) : Type 0 where
  pub warning_free_bytes : ℕ
  pub critical_free_bytes : ℕ
  pub emergency_free_bytes : ℕ
  pub recovery_free_bytes : ℕ
  pub warning_free_percent : Percent
  pub critical_free_percent : Percent
  pub recovery_free_percent : Percent
  pub recovery_checks : ℕ

pub record PressureController (Percent : Type 0) : Type 0 where
  pub policy : PressurePolicy Percent
  pub state : DegradationState
  pub healthy_recovery_checks : ℕ

-- `<=`, `0.0`, and `(a as f64 / b as f64) * 100.0`
pub record FloatApi (Percent : Type 0) : Type 0 where
  pub percent_le : Percent → Percent → Bool
  pub zero_percent : Percent
  pub percent_of : ℕ → ℕ → Percent

-- `u8::saturating_add(1)`
abbrev pub saturating_succ_u8 : ℕ → ℕ
saturating_succ_u8 n = min (n + 1) u8_max

module _ {Percent : Type 0} (floats : FloatApi Percent) where
  open floats use {percent_le, zero_percent, percent_of}

  unfoldable pub validate : PressurePolicy Percent → Result PressureError (Unit {0})
  validate policy = do
    ensure
        (leb policy.emergency_free_bytes policy.critical_free_bytes
          && (leb policy.critical_free_bytes policy.warning_free_bytes
              && leb policy.warning_free_bytes policy.recovery_free_bytes))
        bytes_unordered
    ensure
        (percent_le policy.critical_free_percent policy.warning_free_percent
          && percent_le policy.warning_free_percent policy.recovery_free_percent)
        percents_unordered
    ensure (ltb 0 policy.recovery_checks) checks_zero

  unfoldable pub new : PressurePolicy Percent → Result PressureError (PressureController Percent)
  unfolding validate
  new policy = do
    validate policy
    ok (record { policy = policy; state = nothing_paused; healthy_recovery_checks = 0 })

  abbrev pub available_percent : DiskSample → Percent
  available_percent sample =
      if sample.total_bytes == 0
      then zero_percent
      else percent_of sample.available_bytes sample.total_bytes

  abbrev pub is_emergency : PressurePolicy Percent → DiskSample → Bool
  is_emergency policy sample = leb sample.available_bytes policy.emergency_free_bytes

  abbrev pub is_critical : PressurePolicy Percent → DiskSample → Bool
  is_critical policy sample =
      leb sample.available_bytes policy.critical_free_bytes
      || percent_le (available_percent sample) policy.critical_free_percent

  abbrev pub is_warning : PressurePolicy Percent → DiskSample → Bool
  is_warning policy sample =
      leb sample.available_bytes policy.warning_free_bytes
      || percent_le (available_percent sample) policy.warning_free_percent

  abbrev pub is_recovered : PressurePolicy Percent → DiskSample → Bool
  is_recovered policy sample =
      leb policy.recovery_free_bytes sample.available_bytes
      && percent_le policy.recovery_free_percent (available_percent sample)

  -- The arm of a sample that counts towards recovery.
  abbrev pub count_healthy : PressureController Percent → PressureController Percent
  count_healthy c =
      if leb c.policy.recovery_checks (saturating_succ_u8 c.healthy_recovery_checks)
      then record c { state = nothing_paused; healthy_recovery_checks = 0 }
      else record c { healthy_recovery_checks = saturating_succ_u8 c.healthy_recovery_checks }

  -- The controller after the call. The call returns its state.
  unfoldable pub evaluate : PressureController Percent → DiskSample → PressureController Percent
  evaluate c sample =
      if is_emergency c.policy sample
      then record c { state = all_paused true; healthy_recovery_checks = 0 }
      else if is_critical c.policy sample
      then record c { state = all_paused false; healthy_recovery_checks = 0 }
      else if is_warning c.policy sample
      then record c {
        state = record c.state {
          provider_refresh_paused = true;
          basic_memory_paused = true;
          capture_blocked = false;
        };
        healthy_recovery_checks = 0;
      }
      else if is_recovered c.policy sample
      then count_healthy c
      else record c { healthy_recovery_checks = 0 }

  -- The samples of a run, the latest one first.
  unfoldable pub run : PressureController Percent → List DiskSample → PressureController Percent
  unfolding evaluate
  run c [] = c
  run c (sample ∷ earlier) = evaluate (run c earlier) sample
