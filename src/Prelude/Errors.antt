-- ===== src/Prelude/Errors.antt =====
-- What a call that may raise returns. The errors are ValueError and the classes of
-- src/shared/exceptions.py, without their messages, and ReviewLinkNotFoundError of
-- src/modules/preorders/review_service.py.
use mathlib.Core.Path.{◌≡◌, refl}
use mathlib.Core.Logic.{◌⊎◌, inl, inr}
use mathlib.Core.Bool.{Bool, true, false}
use native.Mathlib.Omega.{arith}

pub data Error : Type 0 where
  value_error authorization_error authentication_error : Error
  entity_not_found business_rule_error validation_error conflict_error : Error
  review_link_not_found : Error

pub data Result {ℓ} (A : Type ℓ) : Type ℓ where
  ok : A → Result A
  err : Error → Result A

infixl 5 ◌>>=◌
-- the next call, unless this one raised
abbrev pub ◌>>=◌ {ℓ κ} : {A : Type ℓ} {Next : Type κ} → Result A → (A → Result Next) → Result Next
m >>= next = elim m [ err raised ↦ err raised | ok value ↦ next value ]

infixl 5 ◌>>◌
abbrev pub ◌>>◌ {ℓ} : {Next : Type ℓ} → Result (Unit {0}) → Result Next → Result Next
check >> next = check >>= λ passed. next

-- `if b: raise e`
abbrev pub raise_if : Bool → Error → Result (Unit {0})
raise_if true e = err e
raise_if false e = ok tt

pub ok-injective {ℓ} : {A : Type ℓ} {a b : A} → ok a ≡ ok b → a ≡ b
ok-injective h = cc

-- what two guards have let through
pub guards_passed {ℓ} :
    {A : Type ℓ} (p q : Bool) (e f : Error) {a b : A}
    → (raise_if p e >> raise_if q f >> ok a) ≡ ok b
    → (p ≡ false) × (q ≡ false) × (a ≡ b)
guards_passed true q e f h = absurd (ground arith)
guards_passed false true e f h = absurd (ground arith)
guards_passed false false e f h = (refl, refl, cc)

pub Result-cases {ℓ} :
    {A : Type ℓ} (call : Result A)
    → ((value : A) × (call ≡ ok value)) ⊎ ((raised : Error) × (call ≡ err raised))
Result-cases (err raised) = inr (raised, refl)
Result-cases (ok value) = inl (value, refl)
