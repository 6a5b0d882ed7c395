-- ===== src/Prelude/Results.antt =====
-- Code that raises: a value, or what is raised.
use mathlib.Core.Path.{◌≡◌, refl}
use mathlib.Core.Logic.{◌≢◌, ◌⊎◌, inl, inr}
use mathlib.Core.Bool.{Bool, true, false}

module _ {ε} (Raised : Type ε) where
  pub data Checked {ℓ} (Value : Type ℓ) : Type (ε ⊔ ℓ) where
    ok : Value → Checked Value
    err : Raised → Checked Value

module _ {ε} {Raised : Type ε} where
  infixl 5 ◌>>=◌
  -- What follows a step runs on its value; what the step raises ends the chain.
  unfoldable pub ◌>>=◌ {ℓ κ} :
      {Before : Type ℓ} {After : Type κ}
      → Checked Raised Before
      → (Before → Checked Raised After)
      → Checked Raised After
  err e >>= next = err e
  ok v >>= next = next v

  infixl 5 ◌>>◌
  abbrev pub ◌>>◌ {κ} :
      {After : Type κ} → Checked Raised (Unit {0}) → Checked Raised After → Checked Raised After
  test >> next = test >>= λ passed. next

  -- `if not …: raise …`
  abbrev pub guard : Bool → Raised → Checked Raised (Unit {0})
  guard false e = err e
  guard true e = ok tt

  pub eq_of_ok {ℓ} :
      {Value : Type ℓ} {v w : Value} → ◌≡◌ {A = Checked Raised Value} (ok v) (ok w) → v ≡ w
  eq_of_ok same = cc

  pub err≢ok {ℓ} :
      {Value : Type ℓ} (e : Raised) (v : Value) → ◌≢◌ {A = Checked Raised Value} (err e) (ok v)
  err≢ok e v same = cc

  -- A chain that gives a value has given one at its first step.
  pub >>=-eq-ok {ℓ κ} :
      {Before : Type ℓ} {After : Type κ} (step : Checked Raised Before)
      (next : Before → Checked Raised After) {w : After} (same : (step >>= next) ≡ ok w)
      → (v : Before) × (step ≡ ok v) × (next v ≡ ok w)
  unfolding ◌>>=◌
  >>=-eq-ok (err e) next same = absurd (err≢ok e _ same)
  >>=-eq-ok (ok v) next same = (v, refl, same)

  pub guard-eq-ok : (test : Bool) (e : Raised) {u : Unit {0}} → guard test e ≡ ok u → test ≡ true
  guard-eq-ok false e same = cc
  guard-eq-ok true e same = refl

  pub guard-ok_inv {ℓ} :
      {Value : Type ℓ} (test : Bool) (e : Raised) {v w : Value}
      → (guard test e >> ok v) ≡ ok w
      → (test ≡ true) × (v ≡ w)
  unfolding ◌>>=◌
  guard-ok_inv false e same = cc
  guard-ok_inv true e same = (refl, eq_of_ok same)

  pub Checked-cases {ℓ} :
      {Value : Type ℓ} (c : Checked Raised Value)
      → ((e : Raised) × (c ≡ err e)) ⊎ ((v : Value) × (c ≡ ok v))
  Checked-cases (err e) = inl (e, refl)
  Checked-cases (ok v) = inr (v, refl)
