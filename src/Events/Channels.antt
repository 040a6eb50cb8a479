-- ===== src/Events/Channels.antt =====
-- The deliveries of each harness and hook, and the summary of all: crates/brain-store/src/ledger.rs.
use agent_knowledge_base_cod.Common.{
  ℕ, ◌≤◌, ◌≡◌, refl, sym, subst, ◌∙◌, some, List, [], ◌∷◌, arith, map, filter, sort_by, length, All,
  Group, group_by, rows_of, total, largest, total-group_by, total-sort_by, largest-group_by,
  largest-sort_by, All-le-total, Time, timestamp_ns, i64_max, leb, le→leb, leb→le, ok, bind-eq-ok,
  ensure-eq-ok, ok-injective,
}
use agent_knowledge_base_cod.Events.{DeliveryRow, EventStore, sum_range, lift_time}
use agent_knowledge_base_cod.Events.Deliveries.{
  ContextDeliverySummary, HarnessDeliveries, is_since, tokens_of, sum_tokens, summary_of,
  context_delivery_summary, same_channel, channel_before, all_harness_deliveries,
  context_deliveries_by_harness,
}

-- The channel of a group whose sum is in range.
abbrev channel_of : Group DeliveryRow → HarnessDeliveries
channel_of group = record {
  harness = group.0.harness;
  event_name = group.0.event_name;
  deliveries = length (rows_of group);
  total_tokens = total tokens_of (rows_of group);
  max_tokens = largest tokens_of (rows_of group);
  last_delivered_at = some (largest (λ (row : DeliveryRow). row.delivered_at_ns) (rows_of group));
}

abbrev group_tokens : Group DeliveryRow → ℕ
group_tokens group = total tokens_of (rows_of group)

all_harness_deliveries-map :
    (n : ℕ) (groups : List (Group DeliveryRow))
    → n ≤ i64_max
    → All (λ g. group_tokens g ≤ n) groups
    → all_harness_deliveries groups ≡ ok (map channel_of groups)
all_harness_deliveries-map n [] fits h = refl
all_harness_deliveries-map n (g ∷ groups) fits h =
    rw
      (
        le→leb (group_tokens g) i64_max (omega (arith, h.0, fits)),
        all_harness_deliveries-map n groups fits h.1,
      )
      refl

total-map :
    {A B : Type 0} (w : B → ℕ) (f : A → B) (xs : List A)
    → total w (map f xs) ≡ total (λ x. w (f x)) xs
total-map w f [] = refl
total-map w f (x ∷ xs) = omega (arith, total-map w f xs)

largest-map :
    {A B : Type 0} (w : B → ℕ) (f : A → B) (xs : List A)
    → largest w (map f xs) ≡ largest (λ x. w (f x)) xs
largest-map w f [] = refl
largest-map w f (x ∷ xs) = rw (largest-map w f xs) refl

length-total : {A : Type 0} (xs : List A) → length xs ≡ total (λ x. 1) xs
length-total [] = refl
length-total (x ∷ xs) = omega (arith, length-total xs)

-- The channels of rows add up to them.
abbrev pub AddsUp : ContextDeliverySummary → List HarnessDeliveries → Type 0
AddsUp summary channels =
    (total (λ (c : HarnessDeliveries). c.deliveries) channels ≡ summary.deliveries)
    × (total (λ (c : HarnessDeliveries). c.total_tokens) channels ≡ summary.total_tokens)
    × (largest (λ (c : HarnessDeliveries). c.max_tokens) channels ≡ summary.max_tokens)

channels : List DeliveryRow → List (Group DeliveryRow)
channels rows = sort_by channel_before (group_by same_channel rows)

total-channels :
    (w : DeliveryRow → ℕ) (rows : List DeliveryRow)
    → total (λ g. total w (rows_of g)) (channels rows) ≡ total w rows
unfolding channels
total-channels w rows =
    total-sort_by (λ g. total w (rows_of g)) channel_before (group_by same_channel rows)
    ∙ total-group_by w same_channel rows

largest-channels :
    (w : DeliveryRow → ℕ) (rows : List DeliveryRow)
    → largest (λ g. largest w (rows_of g)) (channels rows) ≡ largest w rows
unfolding channels
largest-channels w rows =
    largest-sort_by (λ g. largest w (rows_of g)) channel_before (group_by same_channel rows)
    ∙ largest-group_by w same_channel rows

total_lengths :
    (groups : List (Group DeliveryRow))
    → total (λ g. length (rows_of g)) groups ≡ total (λ g. total (λ row. 1) (rows_of g)) groups
total_lengths [] = refl
total_lengths (g ∷ groups) = omega (arith, length-total (rows_of g), total_lengths groups)

channels-AddsUp :
    (rows : List DeliveryRow)
    → AddsUp
        (record {
          deliveries = length rows;
          total_tokens = total tokens_of rows;
          max_tokens = largest tokens_of rows;
        })
        (map channel_of (channels rows))
channels-AddsUp rows = (
  total-map (λ (c : HarnessDeliveries). c.deliveries) channel_of (channels rows)
      ∙ total_lengths (channels rows)
      ∙ total-channels (λ row. 1) rows
      ∙ sym (length-total rows),
  total-map (λ (c : HarnessDeliveries). c.total_tokens) channel_of (channels rows)
      ∙ total-channels tokens_of rows,
  largest-map (λ (c : HarnessDeliveries). c.max_tokens) channel_of (channels rows)
      ∙ largest-channels tokens_of rows,
)

all_channels :
    (rows : List DeliveryRow)
    → total tokens_of rows ≤ i64_max
    → all_harness_deliveries (channels rows) ≡ ok (map channel_of (channels rows))
all_channels rows fits = all_harness_deliveries-map (total tokens_of rows) (channels rows) fits (
    subst (λ (n : ℕ). All (λ g. group_tokens g ≤ n) (channels rows)) (total-channels tokens_of rows)
      (All-le-total group_tokens (channels rows)))

-- Where the summary of deliveries succeeds, the deliveries by harness and hook succeed for the same
-- time. Their numbers and their tokens add up to the summary's, and the largest of their largest
-- deliveries is the summary's.
pub context_deliveries-AddsUp :
    (since : Time) (store : EventStore) (summary : ContextDeliverySummary)
    → context_delivery_summary since store ≡ ok summary
    → (by_harness : List HarnessDeliveries) × (context_deliveries_by_harness since store
        ≡ ok by_harness)
      × AddsUp summary by_harness
unfolding context_delivery_summary context_deliveries_by_harness channels
context_deliveries-AddsUp since store summary done =
    let (from, dated, a) = bind-eq-ok (lift_time (timestamp_ns since)) _ done in
    let rows = filter (is_since store.project_scope from) store.context_deliveries in
    let (sum, summed, b) = bind-eq-ok (sum_tokens rows) _ a in
    let (fits, _) = ensure-eq-ok (leb (total tokens_of rows) i64_max) sum_range _ summed in
    let within = leb→le (total tokens_of rows) i64_max fits in
    let is_summary : summary_of rows ≡ ok summary = a in
    (
      map channel_of (channels rows),
      rw dated (all_channels rows within),
      subst (λ (s : ContextDeliverySummary). AddsUp s (map channel_of (channels rows)))
          (ok-injective (sym (rw fits refl) ∙ is_summary)) (channels-AddsUp rows),
    )
