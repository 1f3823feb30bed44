-- ===== src/Prelude/Lists.antt =====
-- Lists measured by native numbers, and the list operations that the code uses, with their laws.
use Prim.Native.Nat.{ℕ, zero, suc, ◌+◌, ◌≤◌, ◌<◌}
use mathlib.Core.Path.{◌≡◌, refl, ap, sym}
use mathlib.Core.Bool.{Bool, true, false, not, ◌&&◌, ◌||◌}
use mathlib.Core.Option.{Option, none, some}
use mathlib.Core.List.{List, [], ◌∷◌, ◌++◌, map, Memᴰ}
use native.Mathlib.Omega.{arith}
use mathlib.Core.Logic.{◌↔◌, ◌⊎◌, inl, inr}
use albs_web_server.Prelude.Equality.{Eq, ◌==◌, ==-refl, eq_of_==}
use albs_web_server.Prelude.Tests.{if◌then◌else◌, Bool-cases, bool_ext}

module _ {ℓ} {A : Type ℓ} where
  abbrev pub length : List A → ℕ
  length [] = 0
  length (x ∷ xs) = suc (length xs)

  abbrev pub get_elem? : List A → ℕ → Option A
  get_elem? [] i = none
  get_elem? (x ∷ xs) zero = some x
  get_elem? (x ∷ xs) (suc i) = get_elem? xs i

  abbrev pub take : ℕ → List A → List A
  take zero xs = []
  take (suc n) [] = []
  take (suc n) (x ∷ xs) = x ∷ take n xs

  abbrev pub drop : ℕ → List A → List A
  drop zero xs = xs
  drop (suc n) [] = []
  drop (suc n) (x ∷ xs) = drop n xs

  abbrev pub is_empty : List A → Bool
  is_empty [] = true
  is_empty (x ∷ xs) = false

  abbrev pub head? : List A → Option A
  head? [] = none
  head? (x ∷ xs) = some x

  -- A list comprehension with a Boolean test.
  abbrev pub filter : (A → Bool) → List A → List A
  filter p [] = []
  filter p (x ∷ xs) = if p x then x ∷ filter p xs else filter p xs

  abbrev pub any : (A → Bool) → List A → Bool
  any p [] = false
  any p (x ∷ xs) = p x || any p xs

  abbrev pub all : (A → Bool) → List A → Bool
  all p [] = true
  all p (x ∷ xs) = p x && all p xs

  abbrev pub All {κ} : (A → Type κ) → List A → Type κ
  All P [] = Unit
  All P (x ∷ xs) = P x × All P xs

  pub length-append : (xs ys : List A) → length (xs ++ ys) ≡ length xs + length ys
  length-append [] ys = omega arith
  length-append (x ∷ xs) ys = omega (arith, length-append xs ys)

  pub any-of_mem : (p : A → Bool) {a : A} {xs : List A} → Memᴰ a xs → p a ≡ true → any p xs ≡ true
  any-of_mem p (Memᴰ.head e) h = ground (arith, ap p e)
  any-of_mem p (Memᴰ.tail m) h = ground (arith, any-of_mem p m h)

  pub mem-of_any :
      (p : A → Bool) (xs : List A) → any p xs ≡ true → (a : A) × Memᴰ a xs × (p a ≡ true)
  mem-of_any p [] h = cc
  mem-of_any p (x ∷ xs) h = elim (Bool-cases (p x)) [
    | inl e ↦ (x, Memᴰ.head refl, e)
    | inr e ↦ let (a, m, q) = mem-of_any p xs (rw e at h) in (a, Memᴰ.tail m, q)
  ]

module _ {ℓ} {A : Type ℓ} where
  pub mem-filter_of_mem :
      (p : A → Bool) {a : A} {xs : List A} → Memᴰ a xs → p a ≡ true → Memᴰ a (filter p xs)
  mem-filter_of_mem p {a} (Memᴰ.head {x = x} {xs = xs} e) h =
      let px : p x ≡ true = rw (sym e) h in rw px (Memᴰ.head e)
  mem-filter_of_mem p {a} (Memᴰ.tail {x = x} m) h = elim (Bool-cases (p x)) [
    | inl px ↦ rw px (Memᴰ.tail (mem-filter_of_mem p m h))
    | inr nx ↦ rw nx (mem-filter_of_mem p m h)
  ]

  pub mem_cons-cases : {a x : A} {xs : List A} → Memᴰ a (x ∷ xs) → (a ≡ x) ⊎ Memᴰ a xs
  mem_cons-cases (Memᴰ.head e) = inl e
  mem_cons-cases (Memᴰ.tail m) = inr m

  pub mem-of_mem_filter :
      (p : A → Bool) {a : A} (xs : List A) → Memᴰ a (filter p xs) → Memᴰ a xs × (p a ≡ true)
  mem-of_mem_filter p [] m = elim m [ ]
  mem-of_mem_filter p {a} (x ∷ xs) m = elim (Bool-cases (p x)) [
    | inl px ↦ elim (mem_cons-cases (rw px at m)) [
      | inl e ↦ (Memᴰ.head e, rw e px)
      | inr r ↦ let (m', h) = mem-of_mem_filter p xs r in (Memᴰ.tail m', h)
    ]
    | inr nx ↦ let (m', h) = mem-of_mem_filter p xs (rw nx at m) in (Memᴰ.tail m', h)
  ]

  pub mem_of_eq : {a : A} {xs ys : List A} → xs ≡ ys → Memᴰ a ys → Memᴰ a xs
  mem_of_eq e m = rw e m

  pub is_empty-of_mem : {a : A} {xs : List A} → Memᴰ a xs → is_empty xs ≡ false
  is_empty-of_mem (Memᴰ.head e) = refl
  is_empty-of_mem (Memᴰ.tail m) = refl

  pub mem-of_All {κ} : (P : A → Type κ) {a : A} {xs : List A} → All P xs → Memᴰ a xs → P a
  mem-of_All P h (Memᴰ.head e) = rw e h.0
  mem-of_All P h (Memᴰ.tail m) = mem-of_All P h.1 m

module _ {ℓ} {A : Type ℓ} ⦃e : Eq A⦄ where
  -- `a in xs`.
  abbrev pub contains : List A → A → Bool
  contains xs a = any (λ x. x == a) xs

  pub contains_iff : (xs : List A) (a : A) → (contains xs a ≡ true) ↔ Memᴰ a xs
  contains_iff xs a = (
    λ h. let (x, m, same) = mem-of_any (λ x. x == a) xs h in rw (eq_of_== x a same) at m,
    λ m. any-of_mem (λ x. x == a) m (==-refl a),
  )

module _ {ℓ} {A : Type ℓ} where
  pub mem-of_all : (p : A → Bool) {a : A} {xs : List A} → all p xs ≡ true → Memᴰ a xs → p a ≡ true
  mem-of_all p h (Memᴰ.head e) = ground (arith, ap p e)
  mem-of_all p h (Memᴰ.tail {x = x} m) = mem-of_all p (ground arith) m

  pub is_empty-filter : (p : A → Bool) (xs : List A) → is_empty (filter p xs) ≡ not (any p xs)
  is_empty-filter p [] = refl
  is_empty-filter p (x ∷ xs) = ground (arith, is_empty-filter p xs)

  -- `any` depends on the members only.
  pub any-same_members :
      (p : A → Bool) (xs ys : List A) → ((a : A) → Memᴰ a xs ↔ Memᴰ a ys) → any p xs ≡ any p ys
  any-same_members p xs ys same = bool_ext _ _ (
    λ h. let (a, m, q) = mem-of_any p xs h in any-of_mem p ((same a).0 m) q,
    λ h. let (a, m, q) = mem-of_any p ys h in any-of_mem p ((same a).1 m) q,
  )

  pub mem-append_left : {a : A} {xs : List A} (ys : List A) → Memᴰ a xs → Memᴰ a (xs ++ ys)
  mem-append_left ys (Memᴰ.head e) = Memᴰ.head e
  mem-append_left ys (Memᴰ.tail m) = Memᴰ.tail (mem-append_left ys m)

  pub mem-append_right : {a : A} (xs : List A) {ys : List A} → Memᴰ a ys → Memᴰ a (xs ++ ys)
  mem-append_right [] m = m
  mem-append_right (x ∷ xs) m = Memᴰ.tail (mem-append_right xs m)

  pub mem_append-cases :
      {a : A} (xs : List A) {ys : List A} → Memᴰ a (xs ++ ys) → Memᴰ a xs ⊎ Memᴰ a ys
  mem_append-cases [] m = inr m
  mem_append-cases (x ∷ xs) m = elim (mem_cons-cases m) [
    | inl e ↦ inl (Memᴰ.head e)
    | inr r ↦ elim (mem_append-cases xs r) [ inl l ↦ inl (Memᴰ.tail l) | inr r' ↦ inr r' ]
  ]

  pub mem-of_get_elem? : {a : A} (xs : List A) (i : ℕ) → get_elem? xs i ≡ some a → Memᴰ a xs
  mem-of_get_elem? [] i e = cc
  mem-of_get_elem? (x ∷ xs) zero e = Memᴰ.head (cc)
  mem-of_get_elem? (x ∷ xs) (suc i) e = Memᴰ.tail (mem-of_get_elem? xs i e)

module _ {ℓ κ} {A : Type ℓ} {B : Type κ} where
  pub mem-map_of_mem : (f : A → B) {a : A} {xs : List A} → Memᴰ a xs → Memᴰ (f a) (map f xs)
  mem-map_of_mem f (Memᴰ.head e) = Memᴰ.head (ap f e)
  mem-map_of_mem f (Memᴰ.tail m) = Memᴰ.tail (mem-map_of_mem f m)

  pub mem-of_mem_map :
      (f : A → B) {b : B} (xs : List A) → Memᴰ b (map f xs) → (a : A) × Memᴰ a xs × (b ≡ f a)
  mem-of_mem_map f [] m = elim m [ ]
  mem-of_mem_map f (x ∷ xs) m = elim (mem_cons-cases m) [
    | inl e ↦ (x, Memᴰ.head refl, e)
    | inr r ↦ let (a, l, e) = mem-of_mem_map f xs r in (a, Memᴰ.tail l, e)
  ]

module _ {ℓ} {A : Type ℓ} where
  pub filter-all :
      (p : A → Bool) (xs : List A) → ((a : A) → Memᴰ a xs → p a ≡ true) → filter p xs ≡ xs
  filter-all p [] h = refl
  filter-all p (x ∷ xs) h =
      rw (h x (Memᴰ.head refl)) (ap (λ l. x ∷ l) (filter-all p xs (λ a m. h a (Memᴰ.tail m))))

  pub length-filter-le : (p : A → Bool) (xs : List A) → length (filter p xs) ≤ length xs
  length-filter-le p [] = omega arith
  length-filter-le p (x ∷ xs) = ground (arith, length-filter-le p xs)

  pub length-filter-lt :
      (p : A → Bool) {a : A} (xs : List A)
      → Memᴰ a xs
      → p a ≡ false
      → length (filter p xs) < length xs
  length-filter-lt p [] m h = elim m [ ]
  length-filter-lt p (x ∷ xs) m h = elim (mem_cons-cases m) [
    | inl e ↦ let px : p x ≡ false = rw e at h in rw px (omega (arith, length-filter-le p xs))
    | inr r ↦ elim (Bool-cases (p x)) [
      | inl px ↦ rw px (omega (arith, length-filter-lt p xs r h))
      | inr nx ↦ rw nx (omega (arith, length-filter-lt p xs r h))
    ]
  ]

  pub any-append : (p : A → Bool) (xs ys : List A) → any p (xs ++ ys) ≡ (any p xs || any p ys)
  any-append p [] ys = refl
  any-append p (x ∷ xs) ys = ground (arith, any-append p xs ys)
