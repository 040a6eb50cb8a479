-- ===== src/Events/Deliveries.antt =====
-- The contexts that were handed to agents, which crates/brain-store/src/ledger.rs records and counts.
-- The types are those of context_metrics.rs.
use agent_knowledge_base_cod.Common.{
  ℕ, ◌==◌, ◌&&◌, ◌||◌, Bool, Option, some, List, [], ◌∷◌, ◌++◌, filter, sort_by, length, Group,
  group_by, rows_of, total, largest, Text, text_eq, text_lt, Time, timestamp_ns, i64_max, leb,
  Result, ok, ensure, ◌>>=◌, ◌>>◌,
}
use agent_knowledge_base_cod.Domain.Harness.{Harness, as_str}
use agent_knowledge_base_cod.Domain.Memory.{Uuid}
use agent_knowledge_base_cod.Events.{
  DeliveryRow, EventStore, EventError, foreign_project, count_range, sum_range, lift_time,
}

pub record ContextDelivery : Type 0 where
  pub project_id : Uuid
  pub harness : Harness
  pub native_session_id : Option Text
  pub event_name : Text
  pub delivered_at : Time
  pub total_tokens : ℕ
  pub memory_tokens : ℕ
  pub coordination_tokens : ℕ
  pub citation_count : ℕ

pub record ContextDeliverySummary : Type 0 where
  pub deliveries : ℕ
  pub total_tokens : ℕ
  pub max_tokens : ℕ

pub record HarnessDeliveries : Type 0 where
  pub harness : Text
  pub event_name : Text
  pub deliveries : ℕ
  pub total_tokens : ℕ
  pub max_tokens : ℕ
  pub last_delivered_at : Option Time

-- `i64::try_from` of a `u64`
abbrev count_column : ℕ → Result EventError ℕ
count_column n = do ensure (leb n i64_max) count_range; ok n

unfoldable pub record_context_delivery : ContextDelivery → EventStore → Result EventError EventStore
record_context_delivery d store = do
  ensure (d.project_id == store.project_scope) foreign_project
  delivered ← lift_time (timestamp_ns d.delivered_at)
  tokens ← count_column d.total_tokens
  memory ← count_column d.memory_tokens
  coordination ← count_column d.coordination_tokens
  citations ← count_column d.citation_count
  ok (record store {
    context_deliveries =
        store.context_deliveries
        ++ (record {
          project_id = d.project_id;
          harness = as_str d.harness;
          native_session_id = d.native_session_id;
          event_name = d.event_name;
          delivered_at_ns = delivered;
          total_tokens = tokens;
          memory_tokens = memory;
          coordination_tokens = coordination;
          citation_count = citations;
        }
            ∷ []);
  })

-- `WHERE project_id = ?1 AND delivered_at_ns >= ?2`
abbrev pub is_since : Uuid → Time → DeliveryRow → Bool
is_since project since row = row.project_id == project && leb since row.delivered_at_ns

abbrev pub tokens_of : DeliveryRow → ℕ
tokens_of row = row.total_tokens

-- `SUM(total_tokens)`, which fails where it leaves SQLite's integers
abbrev pub sum_tokens : List DeliveryRow → Result EventError ℕ
sum_tokens rows = do
  ensure (leb (total tokens_of rows) i64_max) sum_range
  ok (total tokens_of rows)

abbrev pub summary_of : List DeliveryRow → Result EventError ContextDeliverySummary
summary_of rows = do
  sum ← sum_tokens rows
  ok (record { deliveries = length rows; total_tokens = sum; max_tokens = largest tokens_of rows })

unfoldable pub context_delivery_summary :
    Time → EventStore → Result EventError ContextDeliverySummary
context_delivery_summary since store = do
  from ← lift_time (timestamp_ns since)
  summary_of (filter (is_since store.project_scope from) store.context_deliveries)

-- `GROUP BY harness, event_name`
abbrev pub same_channel : DeliveryRow → DeliveryRow → Bool
same_channel a b = text_eq a.harness b.harness && text_eq a.event_name b.event_name

-- `ORDER BY harness, event_name`
abbrev pub channel_before : Group DeliveryRow → Group DeliveryRow → Bool
channel_before (a, _) (b, _) =
    text_lt a.harness b.harness
    || (text_eq a.harness b.harness && text_lt a.event_name b.event_name)

abbrev pub harness_deliveries : Group DeliveryRow → Result EventError HarnessDeliveries
harness_deliveries group = do
  sum ← sum_tokens (rows_of group)
  ok (record {
    harness = group.0.harness;
    event_name = group.0.event_name;
    deliveries = length (rows_of group);
    total_tokens = sum;
    max_tokens = largest tokens_of (rows_of group);
    last_delivered_at = some (largest (λ (row : DeliveryRow). row.delivered_at_ns) (rows_of group));
  })

abbrev pub all_harness_deliveries :
    List (Group DeliveryRow) → Result EventError (List HarnessDeliveries)
all_harness_deliveries [] = ok []
all_harness_deliveries (group ∷ groups) = do
  first ← harness_deliveries group
  others ← all_harness_deliveries groups
  ok (first ∷ others)

unfoldable pub context_deliveries_by_harness :
    Time → EventStore → Result EventError (List HarnessDeliveries)
context_deliveries_by_harness since store = do
  from ← lift_time (timestamp_ns since)
  all_harness_deliveries (
      sort_by channel_before (
        group_by same_channel
          (filter (is_since store.project_scope from) store.context_deliveries)))
