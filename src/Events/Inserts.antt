-- ===== src/Events/Inserts.antt =====
-- The two ways in which crates/brain-store/src/ledger.rs succeeds in inserting an event.
use agent_knowledge_base_cod.Common.{
  ℕ, ◌≡◌, ◌⊎◌, ap, inl, inr, Bool-cases, true, false, List, [], ◌∷◌, ◌++◌, any, Result, ok, err,
  ok-injective,
}
use agent_knowledge_base_cod.Events.{
  EventRow, EventError, has_key, has_event_id, put_event, constraint,
}

-- The key stands in the table, which stays, or the row comes last.
pub put_event-cases :
    (row : EventRow) (rows : List EventRow) {n : ℕ} {after : List EventRow}
    → put_event row rows ≡ ok (n, after)
    → ((any (has_key row.idempotency_key) rows ≡ true) × (rows ≡ after))
      ⊎ ((any (has_key row.idempotency_key) rows ≡ false) × (rows ++ (row ∷ []) ≡ after))
put_event-cases row rows {n} {after} done =
    elim (Bool-cases (any (has_key row.idempotency_key) rows)) [
      | inl had ↦ inl (had, table (rw had at done))
      | inr new ↦ elim (Bool-cases (any (has_event_id row.event_id) rows)) [
        | inl clash ↦ absurd (refused (rw (new, clash) at done))
        | inr fresh ↦ inr (new, table (rw (new, fresh) at done))
      ]
    ]
  where
    refused : ◌≡◌ {A = Result EventError (ℕ × List EventRow)} (err constraint) (ok (n, after)) → ⊥
    refused e = cc

    table :
        {m : ℕ} {rest : List EventRow}
        → ◌≡◌ {A = Result EventError (ℕ × List EventRow)} (ok (m, rest)) (ok (n, after))
        → rest ≡ after
    table e = ap (λ (r : ℕ × List EventRow). r.1) (ok-injective e)
