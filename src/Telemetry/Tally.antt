-- ===== src/Telemetry/Tally.antt =====
-- The fold of retrieval decisions in crates/brain-store/src/lifecycle.rs counts them.
use agent_knowledge_base_cod.Common.{
  ℕ, ◌+◌, ◌≤◌, ◌≡◌, ◌==◌, ◌⊎◌, refl, sym, subst, Bool, Bool-cases, inl, inr, true, Option, some,
  none, List, [], ◌∷◌, length, count_where, any, All, Time, u64_max, leb, if◌then◌else◌, arith,
}
use agent_knowledge_base_cod.Telemetry.Names.{
  RetrievalOutcome, delivered, healthy_silence, dropped, failed, not_requested, outcome_place,
  RetrievalDecision,
}
use agent_knowledge_base_cod.Telemetry.Folds.{
  saturating_succ, later_of, RetrievalDecisionFold, count_outcome, decision_step, decision_loop,
  empty_fold, fold_retrieval_decisions,
}

abbrev pub has_outcome : RetrievalOutcome → RetrievalDecision → Bool
has_outcome outcome decision = outcome_place decision.outcome == outcome_place outcome

abbrev pub latest : Option Time → List RetrievalDecision → Option Time
latest found [] = found
latest found (decision ∷ decisions) = latest (some (later_of found decision.occurred_at)) decisions

-- A fold that went on over decisions.
abbrev Counted : RetrievalDecisionFold → List RetrievalDecision → RetrievalDecisionFold → Type 0
Counted before ds after =
    (after.total ≡ before.total + length ds)
    × (after.delivered ≡ before.delivered + count_where (has_outcome delivered) ds)
    × (after.healthy_silence
        ≡ before.healthy_silence + count_where (has_outcome healthy_silence) ds)
    × (after.dropped ≡ before.dropped + count_where (has_outcome dropped) ds)
    × (after.failed ≡ before.failed + count_where (has_outcome failed) ds)
    × (after.not_requested ≡ before.not_requested + count_where (has_outcome not_requested) ds)

abbrev IsBounded : RetrievalDecisionFold → Type 0
IsBounded fold =
    (fold.delivered ≤ fold.total)
    × (fold.healthy_silence ≤ fold.total)
    × (fold.dropped ≤ fold.total)
    × (fold.failed ≤ fold.total)
    × (fold.not_requested ≤ fold.total)

saturating_succ_lem : (n : ℕ) → n + 1 ≤ u64_max → saturating_succ n ≡ n + 1
saturating_succ_lem n h = omega arith

saturating_succ-le : (n m : ℕ) → n ≤ m → m + 1 ≤ u64_max → saturating_succ n ≤ saturating_succ m
saturating_succ-le n m h k = omega arith

abbrev counted_once : RetrievalOutcome → RetrievalOutcome → ℕ
counted_once o p = if outcome_place o == outcome_place p then 1 else 0

abbrev CountedOnce : RetrievalOutcome → RetrievalDecisionFold → RetrievalDecisionFold → Type 0
CountedOnce o before after =
    (after.total ≡ before.total + 1)
    × (after.delivered ≡ before.delivered + counted_once o delivered)
    × (after.healthy_silence ≡ before.healthy_silence + counted_once o healthy_silence)
    × (after.dropped ≡ before.dropped + counted_once o dropped)
    × (after.failed ≡ before.failed + counted_once o failed)
    × (after.not_requested ≡ before.not_requested + counted_once o not_requested)

count_outcome-CountedOnce :
    (o : RetrievalOutcome) (fold : RetrievalDecisionFold)
    → IsBounded fold
    → fold.total + 1 ≤ u64_max
    → CountedOnce o fold (count_outcome o (record fold { total = saturating_succ fold.total }))
count_outcome-CountedOnce delivered fold h fits = omega (arith, h, fits)
count_outcome-CountedOnce healthy_silence fold h fits = omega (arith, h, fits)
count_outcome-CountedOnce dropped fold h fits = omega (arith, h, fits)
count_outcome-CountedOnce failed fold h fits = omega (arith, h, fits)
count_outcome-CountedOnce not_requested fold h fits = omega (arith, h, fits)

once-IsBounded :
    (o : RetrievalOutcome) (before after : RetrievalDecisionFold)
    → IsBounded before
    → CountedOnce o before after
    → IsBounded after
once-IsBounded delivered before after h c = omega (arith, h, c)
once-IsBounded healthy_silence before after h c = omega (arith, h, c)
once-IsBounded dropped before after h c = omega (arith, h, c)
once-IsBounded failed before after h c = omega (arith, h, c)
once-IsBounded not_requested before after h c = omega (arith, h, c)

count_where-cons :
    (p : RetrievalOutcome) (d : RetrievalDecision) (ds : List RetrievalDecision)
    → count_where (has_outcome p) (d ∷ ds)
      ≡ counted_once d.outcome p + count_where (has_outcome p) ds
count_where-cons p d ds = ground arith

decision_loop-Counted :
    (fold : RetrievalDecisionFold) (ds : List RetrievalDecision)
    → IsBounded fold
    → fold.total + length ds ≤ u64_max
    → Counted fold ds (decision_loop fold ds)
decision_loop-Counted fold [] h fits = omega arith
decision_loop-Counted fold (d ∷ ds) h fits =
    let once = count_outcome-CountedOnce d.outcome fold h (omega arith) in
    let bounded = once-IsBounded d.outcome fold (decision_step fold d) h once in
    omega (
      arith,
      once,
      decision_loop-Counted (decision_step fold d) ds bounded (omega (arith, once, fits)),
      count_where-cons delivered d ds,
      count_where-cons healthy_silence d ds,
      count_where-cons dropped d ds,
      count_where-cons failed d ds,
      count_where-cons not_requested d ds,
    )

decision_loop-latest :
    (fold : RetrievalDecisionFold) (ds : List RetrievalDecision)
    → (decision_loop fold ds).last_occurred_at ≡ latest fold.last_occurred_at ds
decision_loop-latest fold [] = refl
decision_loop-latest fold (d ∷ ds) = decision_loop-latest (decision_step fold d) ds

-- The time is none of no decision, and of others the time of one of them that none is after.
abbrev pub IsLatest : Option Time → List RetrievalDecision → Type 0
IsLatest none ds = ds ≡ []
IsLatest (some t) ds =
    All (λ (d : RetrievalDecision). d.occurred_at ≤ t) ds
    × (any (λ (d : RetrievalDecision). d.occurred_at == t) ds ≡ true)

latest_from :
    (u : Time) (ds : List RetrievalDecision)
    → (t : Time) × (latest (some u) ds ≡ some t)
      × (u ≤ t)
      × All (λ (d : RetrievalDecision). d.occurred_at ≤ t) ds
      × ((t ≡ u) ⊎ (any (λ (d : RetrievalDecision). d.occurred_at == t) ds ≡ true))
latest_from u [] = (u, refl, omega arith, tt, inl refl)
latest_from u (d ∷ ds) =
    let (t, is, after, all_before, found) = latest_from (later_of (some u) d.occurred_at) ds in
    (
      t,
      is,
      ground (arith, after),
      (ground (arith, after), all_before),
      elim found [
        | inl same ↦ elim (Bool-cases (leb u d.occurred_at)) [
          | inl newer ↦ inr (ground (arith, same, newer))
          | inr older ↦ inl (ground (arith, same, older))
        ]
        | inr later ↦ inr (ground (arith, later))
      ],
    )

latest-IsLatest : (ds : List RetrievalDecision) → IsLatest (latest none ds) ds
latest-IsLatest [] = refl
latest-IsLatest (d ∷ ds) =
    let (t, is, after, all_before, found) = latest_from d.occurred_at ds in
    subst (λ (o : Option Time). IsLatest o (d ∷ ds)) (sym is)
      (
        (after, all_before),
        elim found [ inl same ↦ ground (arith, same) | inr later ↦ ground (arith, later) ],
      )

outcomes_partition :
    (ds : List RetrievalDecision)
    → count_where (has_outcome delivered) ds
        + count_where (has_outcome healthy_silence) ds
        + count_where (has_outcome dropped) ds
        + count_where (has_outcome failed) ds
        + count_where (has_outcome not_requested) ds
      ≡ length ds
outcomes_partition [] = omega arith
outcomes_partition (d ∷ ds) = omega (
  arith,
  one_of d.outcome,
  outcomes_partition ds,
  count_where-cons delivered d ds,
  count_where-cons healthy_silence d ds,
  count_where-cons dropped d ds,
  count_where-cons failed d ds,
  count_where-cons not_requested d ds,
)
  where
    one_of :
        (o : RetrievalOutcome)
        → counted_once o delivered
            + counted_once o healthy_silence
            + counted_once o dropped
            + counted_once o failed
            + counted_once o not_requested
          ≡ 1
    one_of delivered = omega arith
    one_of healthy_silence = omega arith
    one_of dropped = omega arith
    one_of failed = omega arith
    one_of not_requested = omega arith

-- What a fold says of the decisions.
abbrev pub IsTally : List RetrievalDecision → RetrievalDecisionFold → Type 0
IsTally ds fold =
    (fold.total ≡ length ds)
    × (fold.delivered + fold.healthy_silence + fold.dropped + fold.failed + fold.not_requested
        ≡ fold.total)
    × (fold.delivered ≡ count_where (has_outcome delivered) ds)
    × (fold.healthy_silence ≡ count_where (has_outcome healthy_silence) ds)
    × (fold.dropped ≡ count_where (has_outcome dropped) ds)
    × (fold.failed ≡ count_where (has_outcome failed) ds)
    × (fold.not_requested ≡ count_where (has_outcome not_requested) ds)
    × IsLatest fold.last_occurred_at ds

-- The fold of decisions, as many as a `u64` counts at most, has their number, the number of each
-- outcome, which add up to it, and the latest of their times, or none of no decisions.
pub fold_retrieval_decisions-IsTally :
    (ds : List RetrievalDecision) → length ds ≤ u64_max → IsTally ds (fold_retrieval_decisions ds)
unfolding fold_retrieval_decisions
fold_retrieval_decisions-IsTally ds fits =
    let counted = decision_loop-Counted empty_fold ds (omega arith) (omega arith) in
    (
      omega (arith, counted),
      omega (arith, counted, outcomes_partition ds),
      omega (arith, counted),
      omega (arith, counted),
      omega (arith, counted),
      omega (arith, counted),
      omega (arith, counted),
      subst (λ (o : Option Time). IsLatest o ds) (sym (decision_loop-latest empty_fold ds))
          (latest-IsLatest ds),
    )
