-- ===== src/Common/Texts.antt =====
-- The functions of Go's `strings` package that the program uses, on the native texts.
use Prim.Native.Char.{Char, code}
use Prim.Native.String.{String}
use Prim.Native.String.{◌++◌ as ◌<>◌}
use mathlib.Core.Path.{◌≡◌, refl}
use mathlib.Core.Bool.{Bool, true, false, not, ◌&&◌}
use mathlib.Core.Option.{Option, none, some}
use mathlib.Core.Option
use native.Mathlib.Omega.{arith}
use text.Mathlib.TextLemmas.{cons-append, nil-append}
use text.Mathlib.Text.{◌==◌}
use text.Mathlib.TextEquality.{eq_iff}
use mathlib.Core.Logic.{◌≢◌}
use package.extension_container.Common.Tests.{eqb, Option-cases, if◌then◌else◌}

-- The rest of a text behind a prefix.
unfoldable pub strip_prefix : String → String → Option String
strip_prefix String.[] s = some s
strip_prefix (String.◌∷◌ p ps) String.[] = none
strip_prefix (String.◌∷◌ p ps) (String.◌∷◌ c s) =
    let rest = strip_prefix ps s in if eqb (code p) (code c) then rest else none

-- `strings.Cut`: the parts before and behind the first `sep`.
unfoldable pub cut : String → String → Option (String × String)
cut sep String.[] = Option.map (λ after. ("", after)) (strip_prefix sep "")
cut sep (String.◌∷◌ c s) =
    let later = Option.map (λ (p : String × String). (String.◌∷◌ c p.0, p.1)) (cut sep s) in
    elim (strip_prefix sep (String.◌∷◌ c s)) [ some after ↦ some ("", after) | none ↦ later ]

-- `strings.Contains`.
unfoldable pub contains_text : String → String → Bool
unfolding cut
contains_text sep s = elim (cut sep s) [ some _ ↦ true | none ↦ false ]

-- `strings.TrimPrefix`.
unfoldable pub trim_prefix : String → String → String
unfolding strip_prefix
trim_prefix p s = elim (strip_prefix p s) [ some rest ↦ rest | none ↦ s ]

pub strip_prefix-append : (p s : String) → strip_prefix p (p <> s) ≡ some s
unfolding strip_prefix
strip_prefix-append String.[] s = rw (nil-append s) refl
strip_prefix-append (String.◌∷◌ p ps) s =
    rw (cons-append p ps s) (ground (arith, strip_prefix-append ps s))

-- No character of the text is `c`.
abbrev pub avoids : Char → String → Bool
avoids c String.[] = true
avoids c (String.◌∷◌ d s) = not (eqb (code c) (code d)) && avoids c s

strip_prefix_miss :
    (c d : Char) (sep s : String)
    → eqb (code c) (code d) ≡ false
    → strip_prefix (String.◌∷◌ c sep) (String.◌∷◌ d s) ≡ none
unfolding strip_prefix
strip_prefix_miss c d sep s h = rw h

-- A part that lacks the separator's first character stands before the first separator.
pub cut-append :
    (c : Char) (sep a s : String)
    → avoids c a ≡ true
    → let whole = String.◌∷◌ c sep in cut whole (a <> (whole <> s)) ≡ some (a, s)
unfolding cut
cut-append c sep String.[] s h =
    rw (nil-append (String.◌∷◌ c sep <> s), cons-append c sep s)
      (let e : strip_prefix (String.◌∷◌ c sep) (String.◌∷◌ c (sep <> s)) ≡ some s =
          rw (← cons-append c sep s) (strip_prefix-append (String.◌∷◌ c sep) s) in
        rw (e, cut) refl)
cut-append c sep (String.◌∷◌ d a) s h = rw (cons-append d a (String.◌∷◌ c sep <> s)) (
    rw (strip_prefix_miss c d sep (a <> (String.◌∷◌ c sep <> s)) (ground arith), cut)
      (rw (cut-append c sep a s (ground arith)) refl))

-- A text without the separator is not cut.
pub cut-none : (sep s : String) → contains_text sep s ≡ false → cut sep s ≡ none
unfolding contains_text
cut-none sep s h = ground (arith, Option-cases (cut sep s))

pub ne_of_==-false : (a b : String) → (a == b) ≡ false → a ≢ b
ne_of_==-false a b h e = cc ((eq_iff a b).1 e)

pub ==-false : (a b : String) → a ≢ b → (a == b) ≡ false
==-false a b h = ground (arith, eq_iff a b)
