-- ===== src/Pushes/Tests.antt =====
-- A session that is handed two memories, one of which it has.
use agent_knowledge_base_cod.Common.{
  ◌≡◌, refl, false, [], ◌∷◌, codes, is_blank, trim, is_whitespace, ok, arith, unix_epoch,
}
use agent_knowledge_base_cod.Pushes.{PushStore, push_row, record_session_push, session_pushed_ids}
use agent_knowledge_base_cod.Pushes.Once.{HasPushed, record_session_push-HasPushed}

abbrev one_push : PushStore
one_push = record { project_scope = 7; session_pushes = push_row (codes "s") 7 unix_epoch 4 ∷ [] }

named : is_blank (codes "s") ≡ false
unfolding trim is_whitespace
named = refl

handed : session_pushed_ids (codes "s") one_push ≡ 4 ∷ []
unfolding session_pushed_ids trim is_whitespace
handed = refl

record_session_push-HasPushed_example :
    (after : PushStore) × (record_session_push (codes "s") (4 ∷ 5 ∷ []) unix_epoch one_push
      ≡ ok after)
    × HasPushed (codes "s") (4 ∷ 5 ∷ []) one_push after
record_session_push-HasPushed_example =
    record_session_push-HasPushed (codes "s") (4 ∷ 5 ∷ []) unix_epoch one_push named (omega arith)
      (refl, tt) (rw handed (refl, tt))
