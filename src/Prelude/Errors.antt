-- ===== src/Prelude/Errors.antt =====
-- Python exceptions as values. A constructor stands for each exception class that the modelled
-- code raises itself or lets through.
use mathlib.Core.Path.{◌≡◌, refl}
use mathlib.Core.Bool.{Bool, true, false}

pub data Error : Type 0 where
  value_error attribute_error key_error index_error type_error stop_iteration : Error
  data_not_found_error permission_denied team_error product_error sign_error : Error
  build_already_signed_error empty_build_error artifact_checksum_error gen_key_error : Error
  artifact_conversion_error repository_add_error srpm_provision_error module_update_error user_error
        platform_missing_error database_error :
      Error

-- What a call comes to: an exception, or a value.
pub data Result {ℓ} (V : Type ℓ) : Type ℓ where
  err : (exception : Error) → Result V
  ok : (value : V) → Result V

infixl 5 ◌>>=◌ ◌>>◌
-- An exception ends the block.
abbrev pub ◌>>=◌ {ℓ κ} : {V : Type ℓ} {W : Type κ} → Result V → (V → Result W) → Result W
err exception >>= next = err exception
ok value >>= next = next value

abbrev pub ◌>>◌ {ℓ} : {W : Type ℓ} → Result (Unit {0}) → Result W → Result W
err exception >> next = err exception
ok _ >> next = next

-- `if test: raise e`.
abbrev pub raise_if : Bool → Error → Result (Unit {0})
raise_if true e = err e
raise_if false e = ok tt

-- A block that returns has returned at each step.
module _ {ℓ κ} {V : Type ℓ} {W : Type κ} where
  pub >>=-eq-ok :
      (step : Result V) (next : V → Result W) {w : W}
      → (step >>= next) ≡ ok w
      → (v : V) × (step ≡ ok v) × (next v ≡ ok w)
  >>=-eq-ok (err exception) next returned = cc
  >>=-eq-ok (ok v) next returned = (v, refl, returned)

pub raise_if-eq-ok : (b : Bool) (e : Error) {u : Unit {0}} → raise_if b e ≡ ok u → b ≡ false
raise_if-eq-ok true e h = cc
raise_if-eq-ok false e h = refl

-- Past a `raise` under an `if`, the test was false.
pub >>-eq-ok {ℓ} :
    {W : Type ℓ} (b : Bool) (e : Error) (next : Result W) {w : W}
    → (raise_if b e >> next) ≡ ok w
    → (b ≡ false) × (next ≡ ok w)
>>-eq-ok true e next h = cc
>>-eq-ok false e next h = (refl, h)

-- Past a step that has no value.
pub >>-returns {ℓ} :
    {W : Type ℓ} (step : Result (Unit {0})) (next : Result W) {w : W}
    → (step >> next) ≡ ok w
    → next ≡ ok w
>>-returns (ok u) next h = h
>>-returns (err e) next h = cc

pub >>=-congr {ℓ κ} :
    {A : Type ℓ} {B : Type κ} (m : Result A) {f g : A → Result B}
    → ((a : A) → f a ≡ g a)
    → (m >>= f) ≡ (m >>= g)
>>=-congr (ok a) h = h a
>>=-congr (err e) h = refl

pub ok-injective {ℓ} : {A : Type ℓ} {a b : A} → ok a ≡ ok b → a ≡ b
ok-injective h = cc
