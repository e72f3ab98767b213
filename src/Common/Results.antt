-- ===== src/Common/Results.antt =====
-- Go's `(value, error)` as a result; `E` says how a call fails.
use mathlib.Core.Path.{◌≡◌, refl, ap}
use mathlib.Core.Option.{Option, none, some}
use mathlib.Core.Logic.{◌⊎◌, inl, inr}

pub data Result {ℓ} (E A : Type ℓ) : Type ℓ where
  ok : A → Result E A
  err : E → Result E A

infixl 5 ◌>>=◌
abbrev pub ◌>>=◌ {ℓ} : {E A B : Type ℓ} → Result E A → (A → Result E B) → Result E B
ok a >>= f = f a
err e >>= f = err e

-- `v, ok := m[k]; if !ok { return err }`
abbrev pub or_err {ℓ} : {E A : Type ℓ} → Option A → E → Result E A
or_err none e = err e
or_err (some a) e = ok a

-- `fmt.Errorf("...: %w", err)`: the error is passed on as another.
abbrev pub map_err {ℓ} : {E F A : Type ℓ} → (E → F) → Result E A → Result F A
map_err f (ok a) = ok a
map_err f (err e) = err (f e)

pub Result-cases {ℓ} :
    {E A : Type ℓ} (r : Result E A) → ((a : A) × (r ≡ ok a)) ⊎ ((e : E) × (r ≡ err e))
Result-cases (ok a) = inl (a, refl)
Result-cases (err e) = inr (e, refl)

-- What a chain of steps that succeeds has gone through.
pub >>=-eq-ok {ℓ} :
    {E A B : Type ℓ} (r : Result E A) (next : A → Result E B) {last : B}
    → (r >>= next) ≡ ok last
    → (first : A) × (r ≡ ok first) × (next first ≡ ok last)
>>=-eq-ok (err why) next done = cc
>>=-eq-ok (ok first) next done = (first, refl, done)

pub or_err-eq-ok {ℓ} :
    {E A : Type ℓ} (o : Option A) (e : E) {a : A} → or_err o e ≡ ok a → o ≡ some a
or_err-eq-ok none e h = cc
or_err-eq-ok (some b) e h = cc

pub err≢ok {ℓ} : {E A : Type ℓ} {e : E} {a : A} → err e ≡ ok a → ⊥
err≢ok h = cc

pub map_err-eq-ok {ℓ} :
    {E F A : Type ℓ} (f : E → F) (r : Result E A) (a : A) → map_err f r ≡ ok a → r ≡ ok a
map_err-eq-ok f (ok x) a h = let same : x ≡ a = cc in ap ok same
map_err-eq-ok f (err e) a h = absurd (err≢ok h)

pub ok_unique {ℓ} : {E A : Type ℓ} {r : Result E A} {a b : A} → r ≡ ok a → r ≡ ok b → a ≡ b
ok_unique h k = cc

pub pair {ℓ} : {A B : Type ℓ} {p : A × B} {a : A} {b : B} → p.0 ≡ a → p.1 ≡ b → p ≡ (a, b)
pair h k = rw (← h, ← k) refl

pub err_unique {ℓ} : {E A : Type ℓ} {r : Result E A} {e f : E} → r ≡ err e → r ≡ err f → e ≡ f
err_unique h k = cc
