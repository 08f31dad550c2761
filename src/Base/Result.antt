-- ===== src/Base/Result.antt =====
-- Go's `(value, error)` results, of which one is used: a value or an error.
use mathlib.Core.Path.{◌≡◌, refl}
use mathlib.Core.Option.{Option, none, some}
use mathlib.Core.Option
use mathlib.Core.Logic.{◌↔◌}
use mathlib.Core.List.{List, [], ◌∷◌}
use telemetry_one_backend.Base.Tests.{if◌then◌else◌}
use mathlib.Core.Bool.{Bool, true, false}

pub data Result {ℓ κ} (E : Type ℓ) (A : Type κ) : Type (ℓ ⊔ κ) where
  ok : A → Result E A
  err : E → Result E A

infixl 5 ◌>>=◌ ◌>>◌
abbrev pub ◌>>=◌ {ℓ κ μ} :
    {E : Type ℓ} {A : Type κ} {B : Type μ} → Result E A → (A → Result E B) → Result E B
ok a >>= f = f a
err e >>= f = err e

abbrev pub ◌>>◌ {ℓ κ} : {E : Type ℓ} {B : Type κ} → Result E (Unit {0}) → Result E B → Result E B
m >> k = m >>= λ _. k

-- A row of `if bad { return err }`: the error of the first test that holds, or `nil`.
unfoldable pub first_error {ℓ} : {E : Type ℓ} → List (Bool × E) → Option E
first_error [] = none
first_error ((bad, e) ∷ rest) = if bad then some e else first_error rest

abbrev pub Passes {ℓ} : {E : Type ℓ} → List (Bool × E) → Type 0
Passes [] = Unit
Passes ((bad, e) ∷ rest) = (bad ≡ false) × Passes rest

module _ {ℓ} {E : Type ℓ} where
  pub Passes-of_first_error : (l : List (Bool × E)) → first_error l ≡ none → Passes l
  unfolding first_error
  Passes-of_first_error [] h = tt
  Passes-of_first_error ((true, e) ∷ rest) h = cc
  Passes-of_first_error ((false, e) ∷ rest) h = (refl, Passes-of_first_error rest h)

  pub first_error_of_Passes : (l : List (Bool × E)) → Passes l → first_error l ≡ none
  unfolding first_error
  first_error_of_Passes [] p = refl
  first_error_of_Passes ((bad, e) ∷ rest) p = rw p.0 (first_error_of_Passes rest p.1)

-- `if err := ...; err != nil { return err }; return a`
unfoldable pub or_error {ℓ κ} : {E : Type ℓ} {A : Type κ} → Option E → A → Result E A
or_error none a = ok a
or_error (some e) a = err e

pub or_error-eq-ok {ℓ κ} :
    {E : Type ℓ} {A : Type κ} (o : Option E) {a b : A} → or_error o a ≡ ok b → (o ≡ none) × (b ≡ a)
unfolding or_error
or_error-eq-ok none h = (refl, cc)
or_error-eq-ok (some e) h = cc

-- A second check runs where the first finds nothing.
pub or_else-eq-none {ℓ} :
    {E : Type ℓ} (a b : Option E) → (Option.or_else a b ≡ none) ↔ ((a ≡ none) × (b ≡ none))
unfolding Option.or_else
or_else-eq-none none b = (λ h. (refl, h), λ h. h.1)
or_else-eq-none (some e) b = (λ h. cc, λ h. cc h.0)

-- What a bind that succeeds has run.
pub >>=-eq-ok {ℓ κ μ} :
    {E : Type ℓ} {A : Type κ} {B : Type μ} {last : B} (first : Result E A) (next : A → Result E B)
    → (first >>= next) ≡ ok last
    → (between : A) × (first ≡ ok between) × (next between ≡ ok last)
>>=-eq-ok (err stopped) next h = cc h
>>=-eq-ok (ok between) next h = (between, refl, h)
