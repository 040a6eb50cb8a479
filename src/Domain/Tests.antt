-- ===== src/Domain/Tests.antt =====
-- The file names of crates/brain-domain/src/memory.rs at single inputs.
use agent_knowledge_base_cod.Common.{ℕ, ◌≡◌, refl, zero, suc, [], ◌∷◌, ◌++◌, length, Text, codes}
use agent_knowledge_base_cod.Domain.Slug.{slugify}

abbrev repeat : ℕ → ℕ → Text
repeat zero c = []
repeat (suc n) c = c ∷ repeat n c

-- The dash that is due before the eightieth character makes the slug one longer.
longest_slug : length (slugify (repeat 79 97 ++ codes " b")) ≡ 81
unfolding slugify
longest_slug = refl

spaced : slugify (codes " Use SQLite, not  files! ") ≡ codes "use-sqlite-not-files"
unfolding slugify
spaced = refl
