-- ===== src/Common/Numerals.antt =====
-- Numbers that are written by `decimal` are read back by `atoi` and `sscanf_percent`.
use Prim.Native.Nat.{ℕ, zero, suc, ◌+◌, ◌-◌, ◌*◌, ◌/◌, ◌%◌, ◌^◌, ◌<◌}
use Prim.Native.Char.{Char, code}
use Prim.Native.String.{String, ◌++◌ as ◌<>◌}
use mathlib.Core.Path.{◌≡◌, refl, sym, ◌∙◌, ap}
use mathlib.Core.Logic.{inl, inr}
use mathlib.Core.Bool.{true, false}
use mathlib.Core.Option.{none, some}
use native.Mathlib.Omega.{arith}
use text.Mathlib.TextLemmas.{cons-append, nil-append, append-nil, append_assoc}
use package.extension_container.Common.Tests.{ltb, eqb, Bool-cases}
use package.extension_container.Common.Int.{pos}
use package.extension_container.Common.Fields.{is_space}
use package.extension_container.Common.Decimals.{digit, decimal, decimal_loop}
use package.extension_container.Common.Scans.{
  is_digit, digits_value, in_range, atoi, digits_percent, sscanf_percent,
}

-- A digit stands for one character, which is read as its value.
pub digit_char : (d : ℕ) → d < 10 → (c : Char) × (digit d ≡ String.◌∷◌ c "") × (code c ≡ b'0' + d)
digit_char zero h = ("0", refl, refl)
digit_char (suc zero) h = ("1", refl, refl)
digit_char (suc (suc zero)) h = ("2", refl, refl)
digit_char (suc (suc (suc zero))) h = ("3", refl, refl)
digit_char (suc (suc (suc (suc zero)))) h = ("4", refl, refl)
digit_char (suc (suc (suc (suc (suc zero))))) h = ("5", refl, refl)
digit_char (suc (suc (suc (suc (suc (suc zero)))))) h = ("6", refl, refl)
digit_char (suc (suc (suc (suc (suc (suc (suc zero))))))) h = ("7", refl, refl)
digit_char (suc (suc (suc (suc (suc (suc (suc (suc zero)))))))) h = ("8", refl, refl)
digit_char (suc (suc (suc (suc (suc (suc (suc (suc (suc zero))))))))) h = ("9", refl, refl)
digit_char (suc (suc (suc (suc (suc (suc (suc (suc (suc (suc d)))))))))) h = absurd (omega arith)

pub is_digit_lem : (d n : ℕ) → d < 10 → n ≡ b'0' + d → is_digit n ≡ true
is_digit_lem d n h e = ground arith

digits_value_step :
    (acc d : ℕ) (s : String)
    → d < 10
    → digits_value acc (digit d <> s) ≡ digits_value (acc * 10 + d) s
unfolding digits_value
digits_value_step acc d s h =
    let (c, e, k) = digit_char d h in
    let v : code c - b'0' ≡ d = omega (arith, k) in
    rw (e, cons-append c "" s, nil-append s) (rw (is_digit_lem d (code c) h k, v) refl)

digits_value-decimal_loop :
    (f n : ℕ) (s : String) → n < f → digits_value 0 (decimal_loop f n <> s) ≡ digits_value n s
unfolding decimal_loop
digits_value-decimal_loop zero n s h = absurd (omega arith)
digits_value-decimal_loop (suc f) n s h = elim (Bool-cases (ltb n 10)) [
  | inl one ↦
      rw (one, digits_value_step 0 n s (ground arith)) (ap (λ m. digits_value m s) (omega arith))
  | inr more ↦
      rw
        (
          more,
          append_assoc (decimal_loop f (n / 10)) (digit (n % 10)) s,
          digits_value-decimal_loop f (n / 10) (digit (n % 10) <> s) (ground arith),
          digits_value_step (n / 10) (n % 10) s (omega arith),
        )
        (ap (λ m. digits_value m s) (omega arith))
]

digits_percent_step :
    (acc d : ℕ) (s : String)
    → d < 10
    → digits_percent (some acc) (digit d <> s) ≡ digits_percent (some (acc * 10 + d)) s
unfolding digits_percent
digits_percent_step acc d s h =
    let (c, e, k) = digit_char d h in
    let v : code c - b'0' ≡ d = omega (arith, k) in
    rw (e, cons-append c "" s, nil-append s) (rw (is_digit_lem d (code c) h k, v) refl)

digits_percent_first :
    (d : ℕ) (s : String) → d < 10 → digits_percent none (digit d <> s) ≡ digits_percent (some d) s
unfolding digits_percent
digits_percent_first d s h =
    let (c, e, k) = digit_char d h in
    let v : code c - b'0' ≡ d = omega (arith, k) in
    rw (e, cons-append c "" s, nil-append s) (rw (is_digit_lem d (code c) h k, v) refl)

digits_percent-decimal_loop :
    (f n : ℕ) (s : String)
    → n < f
    → digits_percent none (decimal_loop f n <> s) ≡ digits_percent (some n) s
unfolding decimal_loop
digits_percent-decimal_loop zero n s h = absurd (omega arith)
digits_percent-decimal_loop (suc f) n s h = elim (Bool-cases (ltb n 10)) [
  | inl one ↦ rw (one, digits_percent_first n s (ground arith)) refl
  | inr more ↦
      rw
        (
          more,
          append_assoc (decimal_loop f (n / 10)) (digit (n % 10)) s,
          digits_percent-decimal_loop f (n / 10) (digit (n % 10) <> s) (ground arith),
          digits_percent_step (n / 10) (n % 10) s (omega arith),
        )
        (ap (λ m. digits_percent (some m) s) (omega arith))
]

-- What a written number begins with.
abbrev StartsWithDigit : String → Type 0
StartsWithDigit s = (c : Char) × (t : String) × (s ≡ String.◌∷◌ c t) × (is_digit (code c) ≡ true)

decimal_loop-StartsWithDigit : (f n : ℕ) → n < f → StartsWithDigit (decimal_loop f n)
unfolding decimal_loop
decimal_loop-StartsWithDigit zero n h = absurd (omega arith)
decimal_loop-StartsWithDigit (suc f) n h = elim (Bool-cases (ltb n 10)) [
  | inl one ↦
      let (c, e, k) = digit_char n (ground arith) in
      (c, "", rw one e, is_digit_lem n (code c) (ground arith) k)
  | inr more ↦
      let (c, t, e, k) = decimal_loop-StartsWithDigit f (n / 10) (ground arith) in
      (c, t <> digit (n % 10), rw (more, e) (cons-append c t (digit (n % 10))), k)
]

sign_free :
    (n : ℕ) → is_digit n ≡ true → (eqb n b'-' ≡ false) × (eqb n b'+' ≡ false) × (is_space n ≡ false)
unfolding is_space
sign_free n h = (ground arith, ground arith, ground arith)

atoi_digits :
    (c : Char) (t : String)
    → is_digit (code c) ≡ true
    → atoi (String.◌∷◌ c t) ≡ in_range false (digits_value 0 (String.◌∷◌ c t))
unfolding atoi
atoi_digits c t h = let (minus, plus, _) = sign_free (code c) h in rw (minus, plus) refl

in_range_small : (n : ℕ) → n < 2 ^ 63 → in_range false (some n) ≡ some (pos n)
unfolding in_range
in_range_small n h = ground arith

-- `strconv.Atoi` reads back what is written in decimal, up to the largest int.
pub atoi-decimal : (n : ℕ) → n < 2 ^ 63 → atoi (decimal n) ≡ some (pos n)
unfolding decimal digits_value
atoi-decimal n h =
    let (c, t, e, k) = decimal_loop-StartsWithDigit (n + 1) n (omega arith) in
    let read : digits_value 0 (decimal_loop (n + 1) n) ≡ some n =
      ap (digits_value 0) (sym (append-nil (decimal_loop (n + 1) n)))
      ∙ digits_value-decimal_loop (n + 1) n "" (omega arith) in
    ap atoi e
    ∙ atoi_digits c t k
    ∙ ap (λ s. in_range false (digits_value 0 s)) (sym e)
    ∙ ap (in_range false) read
    ∙ in_range_small n h

sscanf_digits :
    (c : Char) (t : String)
    → is_digit (code c) ≡ true
    → sscanf_percent (String.◌∷◌ c t) ≡ in_range false (digits_percent none (String.◌∷◌ c t))
unfolding sscanf_percent
sscanf_digits c t h =
    let (minus, plus, space) = sign_free (code c) h in rw (space, minus, plus) refl

digits_percent_end : (n : ℕ) → digits_percent (some n) "%" ≡ some n
unfolding digits_percent
digits_percent_end n = refl

-- `Sscanf` with `%d%%` reads back what `Sprintf` with `%d%%` writes.
pub sscanf_percent-decimal : (n : ℕ) → n < 2 ^ 63 → sscanf_percent (decimal n <> "%") ≡ some (pos n)
unfolding decimal
sscanf_percent-decimal n h =
    let (c, t, e, k) = decimal_loop-StartsWithDigit (n + 1) n (omega arith) in
    let whole : decimal_loop (n + 1) n <> "%" ≡ String.◌∷◌ c (t <> "%") =
      ap (λ s. s <> "%") e ∙ cons-append c t "%" in
    ap sscanf_percent whole
    ∙ sscanf_digits c (t <> "%") k
    ∙ ap (λ s. in_range false (digits_percent none s)) (sym whole)
    ∙ ap (in_range false)
        (digits_percent-decimal_loop (n + 1) n "%" (omega arith) ∙ digits_percent_end n)
    ∙ in_range_small n h
