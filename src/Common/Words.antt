-- ===== src/Common/Words.antt =====
-- `strings.Fields` on words that are separated by single characters of white space.
use Prim.Native.Nat.{ℕ, zero, suc, ◌+◌, ◌/◌, ◌%◌, ◌<◌}
use Prim.Native.Char.{Char, code}
use Prim.Native.String.{String, ◌++◌ as ◌<>◌}
use mathlib.Core.Path.{◌≡◌, refl, sym, ◌∙◌, ap, subst}
use mathlib.Core.Logic.{inl, inr}
use mathlib.Core.Bool.{Bool, true, false, not, ◌&&◌}
use mathlib.Core.List.{◌∷◌}
use native.Mathlib.Omega.{arith}
use text.Mathlib.TextLemmas.{cons-append, nil-append}
use package.extension_container.Common.Tests.{ltb, Bool-cases}
use package.extension_container.Common.Fields.{is_space, fields_from, onto_first}
use package.extension_container.Common.Decimals.{digit, decimal, decimal_loop}
use package.extension_container.Common.Numerals.{digit_char}

-- A text without white space.
unfoldable pub solid : String → Bool
unfolding is_space
solid String.[] = true
solid (String.◌∷◌ c s) = not (is_space (code c)) && solid s

-- A word of one character at least.
pub data Word : String → Type 0 where
  word : (c : Char) (s : String) → solid (String.◌∷◌ c s) ≡ true → Word (String.◌∷◌ c s)

inside :
    (w : String) (sep : Char) (rest : String)
    → solid w ≡ true
    → is_space (code sep) ≡ true
    → fields_from true (w <> String.◌∷◌ sep rest) ≡ w ∷ fields_from false rest
unfolding fields_from solid onto_first
inside String.[] sep rest h blank = rw (nil-append (String.◌∷◌ sep rest), fields_from, blank) refl
inside (String.◌∷◌ c w) sep rest h blank =
    let here : is_space (code c) ≡ false = ground (arith, h) in
    let later : solid w ≡ true = ground (arith, h) in
    rw (cons-append c w (String.◌∷◌ sep rest), fields_from, here, inside w sep rest later blank)
      refl

-- The first word is the first field.
pub fields_from-word :
    (w : String) (sep : Char) (rest : String)
    → Word w
    → is_space (code sep) ≡ true
    → fields_from false (w <> String.◌∷◌ sep rest) ≡ w ∷ fields_from false rest
unfolding fields_from solid onto_first
fields_from-word w sep rest (word c s h) blank =
    let here : is_space (code c) ≡ false = ground (arith, h) in
    let later : solid s ≡ true = ground (arith, h) in
    rw (cons-append c s (String.◌∷◌ sep rest), fields_from, here, inside s sep rest later blank)
      refl

solid-append : (a b : String) → solid a ≡ true → solid b ≡ true → solid (a <> b) ≡ true
unfolding solid
solid-append String.[] b h k = rw (nil-append b) k
solid-append (String.◌∷◌ c a) b h k =
    let here : is_space (code c) ≡ false = ground (arith, h) in
    let later : solid a ≡ true = ground (arith, h) in
    rw (cons-append c a b, solid, here) (solid-append a b later k)

Word-append : (a b : String) → Word a → solid b ≡ true → Word (a <> b)
Word-append a b (word c s h) k =
    subst Word (sym (cons-append c s b))
      (word c (s <> b) (ap solid (sym (cons-append c s b)) ∙ solid-append (String.◌∷◌ c s) b h k))

digit_solid : (n : ℕ) → b'0' < n + 1 → n < b'0' + 10 → is_space n ≡ false
unfolding is_space
digit_solid n h k = ground (arith, h, k)

digit-Word : (d : ℕ) → d < 10 → Word (digit d)
unfolding solid
digit-Word d h =
    let (c, e, k) = digit_char d h in
    subst Word (sym e)
      (word c "" (rw (solid, digit_solid (code c) (omega (arith, k)) (omega (arith, k, h))) refl))

Word-solid : (s : String) → Word s → solid s ≡ true
Word-solid s (word c t h) = h

decimal_loop-Word : (f n : ℕ) → n < f → Word (decimal_loop f n)
unfolding decimal_loop
decimal_loop-Word zero n h = absurd (omega arith)
decimal_loop-Word (suc f) n h = elim (Bool-cases (ltb n 10)) [
  | inl one ↦ rw (one) (digit-Word n (ground arith))
  | inr more ↦ rw (more) (
      Word-append (decimal_loop f (n / 10)) (digit (n % 10))
        (decimal_loop-Word f (n / 10) (ground arith))
        (Word-solid _ (digit-Word (n % 10) (omega arith))))
]

pub decimal-Word : (n : ℕ) → Word (decimal n)
unfolding decimal
decimal-Word n = decimal_loop-Word (n + 1) n (omega arith)
