-- ===== src/Prelude/Equality.antt =====
-- Types whose equality Python's `==` decides, as an interface, and its instances.
use Prim.Native.Nat.{ℕ, ◌<◌}
use native.Mathlib.Omega.{arith}
use Prim.Native.String.{String}
use mathlib.Core.Path.{◌≡◌, refl, ap}
use mathlib.Core.Logic.{◌↔◌, ◌≢◌, inl, inr}
use mathlib.Core.Bool.{Bool, true, false, ◌&&◌}
use text.Mathlib.Text.{◌==◌ as str_eq}
use text.Mathlib.TextEquality.{eq_iff}
use mathlib.Core.Option.{Option, none, some}
use albs_web_server.Prelude.Tests.{nat_beq, nat_beq_iff, Bool-cases, and_parts, and_true}

-- The test comes with the proof that it decides equality.
pub record Eq {ℓ} (S : Type ℓ) : Type ℓ where
  pub beq : (left right : S) → Bool
  pub beq_iff : (left right : S) → (beq left right ≡ true) ↔ (left ≡ right)

infix 50 ◌==◌
module _ {ℓ} {S : Type ℓ} where
  abbrev pub ◌==◌ : ⦃eq : Eq S⦄ → (left right : S) → Bool
  ◌==◌ ⦃eq⦄ left right = eq.beq left right

instance abbrev pub string_eq : Eq String
string_eq = record { beq_iff = eq_iff; beq = str_eq }

abbrev pub bool_beq : Bool → Bool → Bool
bool_beq true true = true
bool_beq false false = true
bool_beq _ _ = false

pub bool_beq_iff : (a b : Bool) → (bool_beq a b ≡ true) ↔ (a ≡ b)
bool_beq_iff true true = (λ _. refl, λ _. refl)
bool_beq_iff true false = (λ h. cc, λ h. cc)
bool_beq_iff false true = (λ h. cc, λ h. cc)
bool_beq_iff false false = (λ _. refl, λ _. refl)

instance abbrev pub bool_eq : Eq Bool
bool_eq = record { beq = bool_beq; beq_iff = bool_beq_iff }

instance abbrev pub nat_eq : Eq ℕ
nat_eq = record { beq_iff = nat_beq_iff; beq = nat_beq }

module _ {ℓ} {A : Type ℓ} ⦃e : Eq A⦄ where
  pub ==-refl : (a : A) → (a == a) ≡ true
  ==-refl a = (e.beq_iff a a).1 refl

  pub eq_of_== : (a b : A) → (a == b) ≡ true → a ≡ b
  eq_of_== a b h = (e.beq_iff a b).0 h

  pub not_eq : (a b : A) → a ≢ b → (a == b) ≡ false
  not_eq a b h = elim (Bool-cases (a == b)) [
    | inl same ↦ absurd (h (eq_of_== a b same))
    | inr other ↦ other
  ]

pub neq_test : (a b : ℕ) → a ≢ b → nat_beq a b ≡ false
neq_test a b h = not_eq a b h

pub lt_ne : {a b : ℕ} → a < b → b ≢ a
lt_ne h e = omega arith

module _ {ℓ κ} {A : Type ℓ} {B : Type κ} ⦃e : Eq A⦄ ⦃f : Eq B⦄ where
  abbrev pub pair_beq : A × B → A × B → Bool
  pair_beq p q = (p.0 == q.0) && (p.1 == q.1)

  pub pair_beq_iff : (p q : A × B) → (pair_beq p q ≡ true) ↔ (p ≡ q)
  pair_beq_iff p q = (
    λ h.
        let (a, b) = and_parts (p.0 == q.0) (p.1 == q.1) h in
        λ i. (eq_of_== p.0 q.0 a i, eq_of_== p.1 q.1 b i),
    λ h.
        and_true {p = p.0 == q.0} {q = p.1 == q.1} (rw (ap (λ (r : A × B). r.0) h) (==-refl q.0))
          (rw (ap (λ (r : A × B). r.1) h) (==-refl q.1)),
  )

instance abbrev pub pair_eq {ℓ κ} : {A : Type ℓ} {B : Type κ} ⦃e : Eq A⦄ ⦃f : Eq B⦄ → Eq (A × B)
pair_eq = record { beq = pair_beq; beq_iff = pair_beq_iff }

module _ {ℓ} {A : Type ℓ} ⦃e : Eq A⦄ where
  abbrev pub option_beq : Option A → Option A → Bool
  option_beq none none = true
  option_beq none (some b) = false
  option_beq (some a) none = false
  option_beq (some a) (some b) = a == b

  pub option_beq_iff : (p q : Option A) → (option_beq p q ≡ true) ↔ (p ≡ q)
  option_beq_iff none none = (λ _. refl, λ _. refl)
  option_beq_iff none (some b) = (λ h. cc, λ h. cc)
  option_beq_iff (some a) none = (λ h. cc, λ h. cc)
  option_beq_iff (some a) (some b) =
      (λ h. ap some (eq_of_== a b h), λ h. let same : a ≡ b = cc h in rw same (==-refl b))

instance abbrev pub option_eq {ℓ} : {A : Type ℓ} ⦃e : Eq A⦄ → Eq (Option A)
option_eq = record { beq = option_beq; beq_iff = option_beq_iff }
