-- ===== src/Coordination/Claims/Paths/Canonical.antt =====
-- What a normalized path looks like.
use mathlib.Core.Path.{subst}
use agent_knowledge_base_cod.Common.{
  ◌≡◌, sym, ap, ◌∙◌, ok-injective, inl, inr, true, false, Bool-cases, not, List, [], ◌∷◌, map,
  arith, Text, is_empty, trim, split, join, Lacks, split-Lacks, split-join, ok, bind-eq-ok,
  ensure-eq-ok, any, filter, All, ◌==◌,
}
use agent_knowledge_base_cod.Coordination.Model.{path_empty, path_absolute, path_stream}
use agent_knowledge_base_cod.Coordination.Claims.Paths.{
  slash, starts_with_slash, forward, is_skipped, is_parent, components, normalize,
}

-- A component that names something: it is not empty, not `.` and not `..`.
abbrev pub IsPlain : Text → Type 0
IsPlain c = (is_skipped c ≡ false) × (is_parent c ≡ false)

abbrev kept : List Text → List Text
kept = filter (λ c. not (is_skipped c))

-- The components of a path that its normalization keeps.
abbrev pub kept_components : Text → List Text
kept_components value = kept (split slash (map forward (trim value)))

module _ (lowercase : Text → Text) where
  components-eq-ok :
      (xs : List Text) {cs : List Text}
      → components lowercase xs ≡ ok cs
      → (cs ≡ map lowercase (kept xs)) × All IsPlain (kept xs)
  unfolding components
  components-eq-ok [] h = ground arith
  components-eq-ok (x ∷ xs) {cs} h = elim (Bool-cases (is_skipped x)) [
    | inl skipped ↦ rw skipped (components-eq-ok xs {cs = cs} (rw skipped at h))
    | inr shown ↦ elim (Bool-cases (is_parent x)) [
      | inl up ↦ absurd (ground arith)
      | inr plain ↦
          let (ds, more, last) = bind-eq-ok (components lowercase xs) _ (rw (shown, plain) at h) in
          let (e, all_plain) = components-eq-ok xs more in
          rw shown (ground arith, ((shown, plain), all_plain))
    ]
  ]

  kept-Lacks : (xs : List Text) → All (Lacks slash) xs → All (Lacks slash) (kept xs)
  kept-Lacks [] h = tt
  kept-Lacks (x ∷ xs) h = ground (arith, kept-Lacks xs h.1)

  map-All :
      (P : Text → Type 0) (xs : List Text)
      → ((s : Text) → P s → P (lowercase s))
      → All P xs
      → All P (map lowercase xs)
  map-All P [] keep h = tt
  map-All P (x ∷ xs) keep h = (keep x h.0, map-All P xs keep h.1)

  joined :
      (cs : List Text)
      → any (λ _. true) cs ≡ true
      → All (Lacks slash) cs
      → split slash (join slash cs) ≡ cs
  joined [] h a = cc
  joined (c ∷ cs) h a = split-join slash c cs a

  -- Where `lowercase` makes no slash and no special component, an accepted path falls apart at its
  -- slashes into the kept components of the input in lower case, and each of them is plain.
  pub normalize-IsPlain :
      (value n : Text)
      → ((s : Text) → Lacks slash s → Lacks slash (lowercase s))
      → ((s : Text) → IsPlain s → IsPlain (lowercase s))
      → normalize lowercase value ≡ ok n
      → (split slash n ≡ map lowercase (kept_components value)) × All IsPlain (split slash n)
  unfolding normalize
  normalize-IsPlain value n no_slash plain h =
      let replaced : Text = map forward (trim value) in
      let (_, h1) = ensure-eq-ok (not (is_empty replaced)) path_empty _ h in
      let (_, h2) = ensure-eq-ok (not (starts_with_slash replaced)) path_absolute _ h1 in
      let (_, h3) = ensure-eq-ok (not (any (λ c. c == b':') replaced)) path_stream _ h2 in
      let (cs, made, h4) = bind-eq-ok (components lowercase (split slash replaced)) _ h3 in
      let (some_kept, h5) = ensure-eq-ok (any (λ _. true) cs) path_empty _ h4 in
      let (e, all_plain) = components-eq-ok (split slash replaced) made in
      let lacks =
        map-All (Lacks slash) (kept_components value) no_slash
          (kept-Lacks (split slash replaced) (split-Lacks slash replaced)) in
      let n_is : n ≡ join slash (map lowercase (kept_components value)) =
        sym (ok-injective h5) ∙ ap (join slash) e in
      let shape =
        ap (split slash) n_is
        ∙ joined (map lowercase (kept_components value))
            (subst (λ ds. any (λ _. true) ds ≡ true) e some_kept) lacks in
      (shape, rw shape (map-All IsPlain (kept_components value) plain all_plain))
