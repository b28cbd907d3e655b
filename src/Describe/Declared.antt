-- ===== src/Describe/Declared.antt =====
-- Configurations that agree on the parameters of a description.
use extension_container.Common.{List, [], ◌∷◌, ◌≡◌}
use extension_container.Common.Dicts.{Dict, lookup}
use extension_container.ActionKit.{Request}
use extension_container.Describe.{ActionParameter}

-- Two configurations have the same values, or none, for each of the parameters.
abbrev pub Agree : {V : Type 0} → List ActionParameter → Dict V → Dict V → Type 0
Agree [] c d = Unit {0}
Agree (p ∷ ps) c d = (lookup p.name c ≡ lookup p.name d) × Agree ps c d

abbrev pub with_config : {V : Type 0} → Request V → Dict V → Request V
with_config request config = record request { config = config }
