-- ===== src/Common/Fields.antt =====
-- `strings.Fields`, `strings.TrimSpace` and `strings.Split` on one character.
use Prim.Native.Nat.{ℕ}
use Prim.Native.Char.{Char, code}
use Prim.Native.String.{String}
use mathlib.Core.Bool.{Bool, true, false, ◌||◌, ◌&&◌}
use mathlib.Core.List.{List, [], ◌∷◌}
use package.extension_container.Common.Tests.{eqb, leb, if◌then◌else◌}

-- `unicode.IsSpace`.
unfoldable pub is_space : ℕ → Bool
is_space c =
    leb 9 c && leb c 13
    || eqb c 32
    || eqb c 0x85
    || eqb c 0xa0
    || eqb c 0x1680
    || leb 0x2000 c && leb c 0x200a
    || eqb c 0x2028
    || eqb c 0x2029
    || eqb c 0x202f
    || eqb c 0x205f
    || eqb c 0x3000

-- Puts a character in front of the first part.
unfoldable pub onto_first : Char → List String → List String
onto_first c [] = String.◌∷◌ c "" ∷ []
onto_first c (p ∷ ps) = String.◌∷◌ c p ∷ ps

-- The parts between the separators, one more than there are separators.
unfoldable pub split_on : ℕ → String → List String
unfolding onto_first
split_on sep String.[] = "" ∷ []
split_on sep (String.◌∷◌ c s) =
    let parts = split_on sep s in if eqb (code c) sep then "" ∷ parts else onto_first c parts

-- The parts between runs of white space: `inside` says that the text goes on with a part, whose
-- characters then stand at the head of the list.
unfoldable pub fields_from : Bool → String → List String
unfolding is_space onto_first
fields_from true String.[] = "" ∷ []
fields_from false String.[] = []
fields_from inside (String.◌∷◌ c s) =
    let blank = is_space (code c) in
    let outer = fields_from false s in
    let inner = fields_from true s in
    if blank then (if inside then "" ∷ outer else outer) else onto_first c inner

unfoldable pub fields : String → List String
unfolding fields_from
fields s = fields_from false s

unfoldable pub trim_left : String → String
unfolding is_space
trim_left String.[] = ""
trim_left (String.◌∷◌ c s) =
    let rest = trim_left s in if is_space (code c) then rest else String.◌∷◌ c s

-- A text of white space alone is trimmed away, whatever stands in front of it is kept.
unfoldable pub trim_right : String → String
unfolding is_space
trim_right String.[] = ""
trim_right (String.◌∷◌ c s) =
    let rest = trim_right s in
    elim rest [
      | String.[] ↦ if is_space (code c) then "" else String.◌∷◌ c ""
      | kept ↦ String.◌∷◌ c kept
    ]

unfoldable pub trim_space : String → String
unfolding trim_left trim_right
trim_space s = trim_right (trim_left s)
