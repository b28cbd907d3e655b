-- ===== src/Targets/Prefixes.antt =====
-- `AddPrefix` and `RemovePrefix` of extcontainer/common.go.
use extension_container.Common.{
  String, ◌<>◌, true, false, some, ◌≡◌, refl, cut, contains_text, avoids, cut-append, cut-none,
}
use extension_container.Targets.{separator, remove_prefix, add_prefix}

-- The runtime's name before an id is its prefix.
cut-prefixed :
    (id runtime : String)
    → avoids ":" runtime ≡ true
    → cut separator (runtime <> (separator <> id)) ≡ some (runtime, id)
cut-prefixed id runtime h = cut-append ":" "//" runtime id h

-- The prefix of an id that has none, for a runtime whose name has no colon, is put on once and
-- taken off again.
pub remove_prefix-add_prefix :
    (id runtime other : String)
    → contains_text separator id ≡ false
    → avoids ":" runtime ≡ true
    → (remove_prefix (add_prefix id runtime) ≡ id)
      × (add_prefix (add_prefix id runtime) other ≡ add_prefix id runtime)
      × (remove_prefix id ≡ id)
unfolding remove_prefix add_prefix contains_text
remove_prefix-add_prefix id runtime other plain colon = (
  rw (add_prefix, plain, remove_prefix, cut-prefixed id runtime colon) refl,
  rw (add_prefix, plain, contains_text, cut-prefixed id runtime colon) refl,
  rw (remove_prefix, cut-none separator id plain) refl,
)
