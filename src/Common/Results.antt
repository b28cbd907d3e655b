-- ===== src/Common/Results.antt =====
-- What a Go function with an `error` result can do: return a value, return an error, or panic.
use Prim.Native.String.{String}
use mathlib.Core.Path.{◌≡◌, refl, ap, ◌∙◌}

-- `failure` is `errors.New`, a `fmt.Errorf` with no `%w`, or `ToError(title, nil)`; `wrap` is a
-- `fmt.Errorf` that wraps an error, or `ToError(title, err)`.
pub data Error : Type 0 where
  failure : String → Error
  wrap : String → Error → Error

pub data Result {ℓ} (A : Type ℓ) : Type ℓ where
  ok : A → Result A
  err : Error → Result A
  panic : Result A

infixl 5 ◌>>=◌
abbrev pub ◌>>=◌ {κ ι} : {S : Type κ} {T : Type ι} → Result S → (S → Result T) → Result T
panic >>= next = panic
err problem >>= next = err problem
ok s >>= next = next s

-- `if err != nil { return ToError(title, err) }` after a call.
abbrev pub context {ℓ} : {A : Type ℓ} → String → Result A → Result A
context title (ok a) = ok a
context title (err e) = err (wrap title e)
context title panic = panic

-- A call whose error ends a step, in the state reached so far.
abbrev pub attempt {ℓ κ ι} :
    {A : Type ℓ} {S : Type κ} {R : Type ι} → Result A → S → (A → S × Result R) → S × Result R
attempt (ok a) state next = next a
attempt (err e) state next = (state, err e)
attempt panic state next = (state, panic)

-- The call of a step that succeeded.
pub attempt-eq-ok {ℓ κ ι} :
    {A : Type ℓ} {S : Type κ} {R : Type ι} (r : Result A) (s : S) (k : A → S × Result R) {s' : S}
    {res : R}
    → attempt r s k ≡ (s', ok res)
    → (a : A) × (r ≡ ok a) × (k a ≡ (s', ok res))
attempt-eq-ok (ok a) s k h = (a, refl, h)
attempt-eq-ok (err e) s k h = absurd (cc (ap (λ p. p.1) h))
attempt-eq-ok panic s k h = absurd (cc (ap (λ p. p.1) h))

-- Steps that go on alike after the same call.
same_next {ℓ κ ι} :
    {A : Type ℓ} {S : Type κ} {R : Type ι} (r : Result A) (s : S) (k k' : A → S × Result R)
    → ((a : A) → k a ≡ k' a)
    → attempt r s k ≡ attempt r s k'
same_next (ok a) s k k' same = same a
same_next (err e) s k k' same = refl
same_next panic s k k' same = refl

pub attempt-eq {ℓ κ ι} :
    {A : Type ℓ} {S : Type κ} {R : Type ι} {r r' : Result A} (s : S) (k k' : A → S × Result R)
    → r ≡ r'
    → ((a : A) → k a ≡ k' a)
    → attempt r s k ≡ attempt r' s k'
attempt-eq {r' = r'} s k k' e same = ap (λ q. attempt q s k) e ∙ same_next r' s k k' same

pub ok_inj {ℓ} : {A : Type ℓ} {a b : A} → ok a ≡ ok b → a ≡ b
ok_inj h = cc h

-- Where a call and what follows it succeed, each has succeeded.
pub >>=-ok {κ ι} :
    {S : Type κ} {T : Type ι} (call : Result S) (next : S → Result T) {t : T}
    → (call >>= next) ≡ ok t
    → (s : S) × (call ≡ ok s) × (next s ≡ ok t)
>>=-ok panic next h = cc
>>=-ok (err problem) next h = cc
>>=-ok (ok s) next h = (s, refl, h)

pub context-eq-ok {ℓ} :
    {A : Type ℓ} (title : String) (r : Result A) {a : A} → context title r ≡ ok a → r ≡ ok a
context-eq-ok title (ok b) h = h
context-eq-ok title (err e) h = cc
context-eq-ok title panic h = cc
