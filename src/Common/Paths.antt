-- ===== src/Common/Paths.antt =====
-- `filepath.Join` on Unix, where the first element is rooted and not empty.
use Prim.Native.String.{String, ◌++◌ as ◌<>◌}
use mathlib.Core.List.{List, [], ◌∷◌}
use text.Mathlib.Text.{◌==◌}
use package.extension_container.Common.Tests.{if◌then◌else◌}
use package.extension_container.Common.Fields.{split_on}

drop_last : List String → List String
drop_last [] = []
drop_last (p ∷ ps) = ps

-- The parts that are kept, the last one first: `..` takes one back, and none at the root.
cleaned : List String → List String → List String
unfolding drop_last
cleaned kept [] = kept
cleaned kept (p ∷ ps) =
    cleaned
      (if p == ""
        then kept
        else if p == "."
        then kept
        else if p == ".."
        then drop_last kept
        else p ∷ kept)
      ps

rooted : List String → String
rooted [] = ""
rooted (p ∷ kept) = rooted kept <> ("/" <> p)

root_or : String → String
root_or s = if s == "" then "/" else s

-- `filepath.Clean` of a rooted path.
unfoldable pub clean : String → String
unfolding cleaned rooted root_or split_on
clean path = root_or (rooted (cleaned [] (split_on b'/' path)))

-- Empty elements are left out.
unfoldable pub join : String → String → String → String
unfolding clean
join root middle last =
    clean (root <> ((if middle == "" then "" else "/" <> middle) <> ("/" <> last)))
