-- ===== src/Events/ReadTests.antt =====
-- Deliveries, pages and repaired dates of a small ledger.
use agent_knowledge_base_cod.Common.{
  ◌≢◌, ap, Memᴰ, sort_by, count_where, inl, pos, ℕ, List, ◌>>=◌, ◌+◌, ◌≡◌, ◌++◌, refl, none, some,
  [], ◌∷◌, map, Text, codes, unix_epoch, timestamp_ns, ok, arith,
}
use agent_knowledge_base_cod.Domain.Harness.{claude_code, as_str}
use agent_knowledge_base_cod.Domain.Event.{NormalizedEvent, EventBatch}
use agent_knowledge_base_cod.Events.{
  EventRow, DeliveryRow, EventStore, append_batch, insert_event, save_cursor, stored_row,
}
use agent_knowledge_base_cod.Events.Channels.{AddsUp, context_deliveries-AddsUp}
use agent_knowledge_base_cod.Events.Dating.{
  repair_epoch_event_dates, is_at_epoch, from_observation, NoneAtEpoch,
  repair_epoch_event_dates-IsRepair,
}
use agent_knowledge_base_cod.Events.Deliveries.{
  ContextDelivery, ContextDeliverySummary, HarnessDeliveries, record_context_delivery,
  context_delivery_summary, context_deliveries_by_harness,
}
use agent_knowledge_base_cod.Events.Pages.{IsSession, stable, session_events_page-take}
use agent_knowledge_base_cod.Events.Reads.{
  is_earlier, parse_events, session_events_page, session_event_count,
}
use agent_knowledge_base_cod.Events.Sessions.{native_usage_events, session_events}
use agent_knowledge_base_cod.Events.Tests.{texts, noon, prompt, batch, no_events, one_event}

-- A hook that fires twice, and another.
abbrev delivery : Text → ℕ → ContextDelivery
delivery event tokens = record {
  project_id = 7;
  harness = claude_code;
  native_session_id = none;
  event_name = event;
  delivered_at = noon;
  total_tokens = tokens;
  memory_tokens = tokens;
  coordination_tokens = 0;
  citation_count = 1;
}

abbrev delivery_row : Text → ℕ → DeliveryRow
delivery_row event tokens = record {
  project_id = 7;
  harness = codes "claude-code";
  native_session_id = none;
  event_name = event;
  delivered_at_ns = noon;
  total_tokens = tokens;
  memory_tokens = tokens;
  coordination_tokens = 0;
  citation_count = 1;
}

abbrev delivered : EventStore
delivered = record no_events {
  context_deliveries =
      delivery_row (codes "start") 40
      ∷ delivery_row (codes "prompt") 5
      ∷ delivery_row (codes "start") 60
      ∷ [];
}

recorded :
    (do
      first ← record_context_delivery (delivery (codes "start") 40) no_events
      second ← record_context_delivery (delivery (codes "prompt") 5) first
      record_context_delivery (delivery (codes "start") 60) second)
    ≡ ok delivered
unfolding record_context_delivery timestamp_ns as_str
recorded = refl

abbrev summary : ContextDeliverySummary
summary = record { deliveries = 3; total_tokens = 105; max_tokens = 60 }

summed : context_delivery_summary noon delivered ≡ ok summary
unfolding context_delivery_summary timestamp_ns
summed = refl

abbrev by_hook : List HarnessDeliveries
by_hook =
    record {
      harness = codes "claude-code";
      event_name = codes "prompt";
      deliveries = 1;
      total_tokens = 5;
      max_tokens = 5;
      last_delivered_at = some noon;
    }
    ∷ record {
      harness = codes "claude-code";
      event_name = codes "start";
      deliveries = 2;
      total_tokens = 100;
      max_tokens = 60;
      last_delivered_at = some noon;
    }
    ∷ []

by_hook_read : context_deliveries_by_harness noon delivered ≡ ok by_hook
unfolding context_deliveries_by_harness timestamp_ns
by_hook_read = refl

context_deliveries-AddsUp_example :
    (by_harness : List HarnessDeliveries) × (context_deliveries_by_harness noon delivered
      ≡ ok by_harness)
    × AddsUp summary by_harness
context_deliveries-AddsUp_example = context_deliveries-AddsUp noon delivered summary summed

-- The session has two events, of which the second reports usage.
abbrev usage : NormalizedEvent Text
usage = record prompt {
  event_id = 2;
  source_offset = pos 4;
  idempotency_key = 10;
  occurred_at = noon + 1;
  observed_at = noon + 1;
  raw = codes "{\"usage\":1}";
}

abbrev two_events : EventStore
two_events = record one_event {
  events = one_event.events ++ (stored_row texts usage (noon + 1) (noon + 1) ∷ []);
}

used :
    native_usage_events texts 7 noon two_events
    ≡ ok (
        record {
          harness = claude_code;
          native_session_id = codes "s";
          occurred_at = noon + 1;
          source_locator = codes "t.jsonl";
          source_offset = pos 4;
          raw = codes "{\"usage\":1}";
        }
        ∷ [])
unfolding native_usage_events timestamp_ns as_str
used = refl

abbrev prompt_row : EventRow
prompt_row = stored_row texts prompt noon noon

abbrev usage_row : EventRow
usage_row = stored_row texts usage (noon + 1) (noon + 1)

-- The later event stands first in the table.
abbrev shuffled : EventStore
shuffled = record two_events { events = usage_row ∷ prompt_row ∷ [] }

apart : usage_row ≢ prompt_row
apart e = omega (arith, ap (λ (row : EventRow). row.event_id) e)

swapped : (row a b : EventRow) → Memᴰ row (a ∷ b ∷ []) → Memᴰ row (b ∷ a ∷ [])
swapped row a b (Memᴰ.head e) = Memᴰ.tail (Memᴰ.head e)
swapped row a b (Memᴰ.tail (Memᴰ.head e)) = Memᴰ.head e
swapped row a b (Memᴰ.tail (Memᴰ.tail m)) = elim m [ ]

shuffled-IsSession : IsSession (codes "s") shuffled (prompt_row ∷ usage_row ∷ [])
shuffled-IsSession = record {
  once = ((apart, tt), (tt, tt));
  ascending = ((refl, tt), (tt, tt));
  same = λ row. (swapped row prompt_row usage_row, swapped row usage_row prompt_row);
}

session_events_page-take_example :
    (session_events_page texts (sort_by is_earlier) 7 (codes "s") 1 1 shuffled
      ≡ ok (parse_events texts 7 (usage_row ∷ [])))
    × (session_events texts (sort_by is_earlier) 7 (codes "s") shuffled
        ≡ ok (parse_events texts 7 (prompt_row ∷ usage_row ∷ [])))
    × (session_event_count (codes "s") shuffled ≡ 2)
session_events_page-take_example =
    session_events_page-take texts (sort_by is_earlier) (codes "s") 1 1 shuffled
      (prompt_row ∷ usage_row ∷ []) stable shuffled-IsSession (omega arith) (omega arith)
      (omega arith)

-- An event of the epoch, as it stood before events were dated by their observation.
abbrev epoch_event : EventStore
epoch_event = record one_event { events = stored_row texts prompt unix_epoch noon ∷ [] }

repaired : repair_epoch_event_dates epoch_event ≡ (1, one_event)
unfolding repair_epoch_event_dates
repaired = refl

-- A batch that comes after it.
abbrev usage_batch : EventBatch Text
usage_batch = record batch { events = usage ∷ [] }

abbrev after_usage : EventStore
after_usage = record two_events {
  source_cursors = record { source_id = codes "file"; cursor_json = []; updated_at_ns = noon } ∷ [];
}

appended :
    append_batch texts noon usage_batch (repair_epoch_event_dates epoch_event).1
    ≡ ok (record { inserted = 1; quarantined = 0; capture_gaps = 0 }, after_usage)
unfolding append_batch insert_event save_cursor timestamp_ns repair_epoch_event_dates
appended = refl

repair_epoch_event_dates-IsRepair_example :
    (repair_epoch_event_dates epoch_event ≡ (
      count_where (is_at_epoch 7) epoch_event.events,
      record epoch_event { events = map (from_observation 7) epoch_event.events },
    ))
    × (repair_epoch_event_dates (repair_epoch_event_dates epoch_event).1
        ≡ (0, (repair_epoch_event_dates epoch_event).1))
    × NoneAtEpoch 7 after_usage.events
repair_epoch_event_dates-IsRepair_example =
    repair_epoch_event_dates-IsRepair texts noon usage_batch epoch_event after_usage
      (record { inserted = 1; quarantined = 0; capture_gaps = 0 }) (inl refl, tt) appended
