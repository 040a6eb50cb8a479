-- ===== src/Telemetry/Folds.antt =====
-- `fold_lifecycle` and `fold_retrieval_decisions` of crates/brain-store/src/lifecycle.rs. Counters are
-- `u64`, and a BTreeMap is the list of its entries in rising order.
use Prim.Native.Nat.{min}
use agent_knowledge_base_cod.Common.{
  ℕ, ◌+◌, ◌%◌, ◌^◌, ◌==◌, Option, some, none, List, [], ◌∷◌, Time, u64_max, ltb, leb, if◌then◌else◌,
}
use agent_knowledge_base_cod.Telemetry.Names.{
  LifecycleStage, stage_place, LifecycleEvent, RetrievalOutcome, delivered, healthy_silence,
  dropped, failed, not_requested, RetrievalDecision,
}

abbrev pub saturating_succ : ℕ → ℕ
saturating_succ n = min (n + 1) u64_max

-- `map_or(t, |current| current.max(t))`
abbrev pub later_of : Option Time → Time → Time
later_of none t = t
later_of (some current) t = if leb current t then t else current

pub record LifecycleFold : Type 0 where
  pub total : ℕ
  pub stage_counts : List (LifecycleStage × ℕ)
  pub last_occurred_at : Option Time

-- `*entry(stage).or_insert(0) += 1`
abbrev pub bump : LifecycleStage → List (LifecycleStage × ℕ) → List (LifecycleStage × ℕ)
bump stage [] = (stage, 1) ∷ []
bump stage ((other, n) ∷ rest) =
    if stage_place other == stage_place stage
    then (other, (n + 1) % 2 ^ 64) ∷ rest
    else if ltb (stage_place stage) (stage_place other)
    then (stage, 1) ∷ (other, n) ∷ rest
    else (other, n) ∷ bump stage rest

module _ {Json : Type 0} where
  abbrev pub lifecycle_step : LifecycleFold → LifecycleEvent Json → LifecycleFold
  lifecycle_step fold event = record {
    total = saturating_succ fold.total;
    stage_counts = bump event.stage fold.stage_counts;
    last_occurred_at = some (later_of fold.last_occurred_at event.occurred_at);
  }

  abbrev pub lifecycle_loop : LifecycleFold → List (LifecycleEvent Json) → LifecycleFold
  lifecycle_loop fold [] = fold
  lifecycle_loop fold (event ∷ events) = lifecycle_loop (lifecycle_step fold event) events

  unfoldable pub fold_lifecycle : List (LifecycleEvent Json) → LifecycleFold
  fold_lifecycle events =
      lifecycle_loop (record { total = 0; stage_counts = []; last_occurred_at = none }) events

pub record RetrievalDecisionFold : Type 0 where
  pub total : ℕ
  pub delivered : ℕ
  pub healthy_silence : ℕ
  pub dropped : ℕ
  pub failed : ℕ
  pub not_requested : ℕ
  pub last_occurred_at : Option Time

abbrev pub count_outcome : RetrievalOutcome → RetrievalDecisionFold → RetrievalDecisionFold
count_outcome delivered fold = record fold { delivered = saturating_succ fold.delivered }
count_outcome healthy_silence fold = record fold {
  healthy_silence = saturating_succ fold.healthy_silence;
}
count_outcome dropped fold = record fold { dropped = saturating_succ fold.dropped }
count_outcome failed fold = record fold { failed = saturating_succ fold.failed }
count_outcome not_requested fold = record fold {
  not_requested = saturating_succ fold.not_requested;
}

abbrev pub decision_step : RetrievalDecisionFold → RetrievalDecision → RetrievalDecisionFold
decision_step fold decision =
    record (count_outcome decision.outcome (record fold { total = saturating_succ fold.total })) {
      last_occurred_at = some (later_of fold.last_occurred_at decision.occurred_at);
    }

abbrev pub decision_loop : RetrievalDecisionFold → List RetrievalDecision → RetrievalDecisionFold
decision_loop fold [] = fold
decision_loop fold (decision ∷ decisions) = decision_loop (decision_step fold decision) decisions

abbrev pub empty_fold : RetrievalDecisionFold
empty_fold = record {
  total = 0;
  delivered = 0;
  healthy_silence = 0;
  dropped = 0;
  failed = 0;
  not_requested = 0;
  last_occurred_at = none;
}

unfoldable pub fold_retrieval_decisions : List RetrievalDecision → RetrievalDecisionFold
fold_retrieval_decisions decisions = decision_loop empty_fold decisions
