-- ===== src/Events/Cursor.antt =====
-- The cursor of a source is read back from crates/brain-store/src/cursor.rs as it was saved.
use agent_knowledge_base_cod.Common.{
  ◌≡◌, refl, subst, inl, inr, Bool, Bool-cases, true, false, some, List, [], ◌∷◌, ◌++◌, arith, Text,
  text_eq, text_eq_self, Time, InRange, timestamp_ns, timestamp_ns_fits, ok, bind-eq-ok,
  ok-injective, any, find?, update_where,
}
use agent_knowledge_base_cod.Domain.Event.{SourceCursor}
use agent_knowledge_base_cod.Events.{
  EventApi, CursorRow, lift_time, upsert_cursor, save_cursor, load_cursor,
}

module _ {Json : Type 0} (api : EventApi Json) where
  abbrev is_source : Text → CursorRow → Bool
  is_source source_id c = text_eq c.source_id source_id

  abbrev cursor_row : Text → SourceCursor Json → Time → CursorRow
  cursor_row source_id c updated = record {
    source_id = source_id;
    cursor_json = api.cursor_to_string c;
    updated_at_ns = updated;
  }

  abbrev set_cursor : CursorRow → CursorRow → CursorRow
  set_cursor row c = record c { cursor_json = row.cursor_json; updated_at_ns = row.updated_at_ns }

  -- What the read after a write finds.
  FoundCursor : Text → SourceCursor Json → List CursorRow → Type 0
  FoundCursor source_id c rows =
      (row : CursorRow) × (find? (is_source source_id) rows ≡ some row)
      × (row.cursor_json ≡ api.cursor_to_string c)

  found_updated :
      (source_id : Text) (c : SourceCursor Json) (updated : Time) (rows : List CursorRow)
      → any (is_source source_id) rows ≡ true
      → FoundCursor source_id c
          (update_where (is_source source_id) (set_cursor (cursor_row source_id c updated)) rows)
  unfolding FoundCursor
  found_updated source_id c updated [] h = cc
  found_updated source_id c updated (row ∷ rows) h =
      elim (Bool-cases (text_eq row.source_id source_id)) [
        | inl hit ↦ (set_cursor (cursor_row source_id c updated) row, rw (hit, hit) refl, refl)
        | inr miss ↦
            let (found, is, same) = found_updated source_id c updated rows (rw miss at h) in
            (found, rw (miss, miss) is, same)
      ]

  found_appended :
      (source_id : Text) (c : SourceCursor Json) (updated : Time) (rows : List CursorRow)
      → any (is_source source_id) rows ≡ false
      → FoundCursor source_id c (rows ++ (cursor_row source_id c updated ∷ []))
  unfolding FoundCursor
  found_appended source_id c updated [] h =
      (cursor_row source_id c updated, rw (text_eq_self source_id) refl, refl)
  found_appended source_id c updated (row ∷ rows) h =
      let (found, is, same) = found_appended source_id c updated rows (ground arith) in
      (found, ground (arith, is), same)

  upsert_cursor-FoundCursor :
      (source_id : Text) (c : SourceCursor Json) (updated : Time) (rows : List CursorRow)
      → FoundCursor source_id c (upsert_cursor (cursor_row source_id c updated) rows)
  upsert_cursor-FoundCursor source_id c updated rows =
      elim (Bool-cases (any (is_source source_id) rows)) [
        | inl had ↦ rw had (found_updated source_id c updated rows had)
        | inr new ↦ rw new (found_appended source_id c updated rows new)
      ]

  pub load_cursor-save_cursor :
      (source_id : Text) (c : SourceCursor Json) (now : Time) (rows : List CursorRow)
      {after : List CursorRow}
      → api.cursor_from_str (api.cursor_to_string c) ≡ some c
      → save_cursor api source_id c now rows ≡ ok after
      → load_cursor api after source_id ≡ ok c
  unfolding save_cursor load_cursor FoundCursor
  load_cursor-save_cursor source_id c now rows parses saved =
      let (updated, _, a) = bind-eq-ok (lift_time (timestamp_ns now)) _ saved in
      let (row, found, same) = upsert_cursor-FoundCursor source_id c updated rows in
      subst (λ (out : List CursorRow). load_cursor api out source_id ≡ ok c) (ok-injective a)
        (rw (found, same, parses) refl)

  pub save_cursor_succeeds :
      (source_id : Text) (c : SourceCursor Json) (now : Time) (rows : List CursorRow)
      → InRange now
      → (after : List CursorRow) × (save_cursor api source_id c now rows ≡ ok after)
  unfolding save_cursor
  save_cursor_succeeds source_id c now rows ranged =
      (upsert_cursor (cursor_row source_id c now) rows, rw (timestamp_ns_fits now ranged) refl)
