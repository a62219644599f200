-- ===== src/Common/Fallible.antt =====
-- What code that throws returns: a failure of the component's own type, or a value.
use mathlib.Core.Path.{◌≡◌, refl}
use mathlib.Core.Bool.{Bool, true, false}

pub data Result {ℓ} (E : Type 0) (A : Type ℓ) : Type ℓ where
  err : E → Result E A
  ok : A → Result E A

module _ {E : Type 0} where
  infixl 5 ◌>>=◌ ◌>>◌
  abbrev pub ◌>>=◌ {ℓ κ} : {A : Type ℓ} {B : Type κ} → Result E A → (A → Result E B) → Result E B
  err failure >>= next = err failure
  ok value >>= next = next value

  abbrev pub ◌>>◌ {κ} : {B : Type κ} → Result E (Unit {0}) → Result E B → Result E B
  err failure >> rest = err failure
  ok done >> rest = rest

  -- `if (test) throw failure`
  abbrev pub reject_if : Bool → E → Result E (Unit {0})
  reject_if test failure = elim test [ true ↦ err failure | false ↦ ok tt ]

  -- A chain that succeeds has a first step that does.
  pub bind-ok :
      {A B : Type 0} (first : Result E A) (next : A → Result E B) {value : B}
      → (first >>= next) ≡ ok value
      → (a : A) × (first ≡ ok a) × (next a ≡ ok value)
  bind-ok (err failure) next h = cc
  bind-ok (ok a) next h = (a, refl, h)

  pub then-ok :
      {B : Type 0} (first : Result E (Unit {0})) (rest : Result E B) {value : B}
      → (first >> rest) ≡ ok value
      → (first ≡ ok tt) × (rest ≡ ok value)
  then-ok (err failure) rest h = (cc, cc)
  then-ok (ok done) rest h = (refl, h)

  -- A chain that succeeds has passed its tests.
  pub passed-ok :
      {B : Type 0} (test : Bool) (failure : E) (rest : Result E B) {value : B}
      → (reject_if test failure >> rest) ≡ ok value
      → (test ≡ false) × (rest ≡ ok value)
  passed-ok true failure rest h = (cc, cc)
  passed-ok false failure rest h = (refl, h)
