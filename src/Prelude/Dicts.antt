-- ===== src/Prelude/Dicts.antt =====
-- Python's `dict`: an association list in insertion order. Writing a present key keeps its place.
use mathlib.Core.Path.{◌≡◌, refl, ap, sym, ◌∙◌}
use mathlib.Core.Logic.{◌↔◌, inl, inr}
use mathlib.Core.Bool.{false, false≢true}
use mathlib.Core.Option.{Option, none, some}
use mathlib.Core.List.{List, [], ◌∷◌, map, Memᴰ}
use albs_web_server.Prelude.Lists.{mem_cons-cases}
use albs_web_server.Prelude.Tests.{if◌then◌else◌, Bool-cases}
use albs_web_server.Prelude.Equality.{Eq, ◌==◌, ==-refl, eq_of_==}

module _ {ℓ κ} {K : Type ℓ} {V : Type κ} where
  abbrev pub keys : List (K × V) → List K
  keys m = map (λ p. p.0) m

  abbrev pub values : List (K × V) → List V
  values m = map (λ p. p.1) m

module _ {ℓ κ} {K : Type ℓ} {V : Type κ} ⦃e : Eq K⦄ where
  unfoldable pub lookup : K → List (K × V) → Option V
  lookup k [] = none
  lookup k ((j, v) ∷ m) = if k == j then some v else lookup k m

  unfoldable pub insert : K → V → List (K × V) → List (K × V)
  insert k v [] = (k, v) ∷ []
  insert k v ((j, w) ∷ m) = if k == j then (j, v) ∷ m else (j, w) ∷ insert k v m

  -- `pop(k)`, of which the value is `lookup k`. A key stands once in a dictionary.
  unfoldable pub remove_key : K → List (K × V) → List (K × V)
  remove_key k [] = []
  remove_key k ((j, v) ∷ m) = if k == j then remove_key k m else (j, v) ∷ remove_key k m

  pub lookup-remove_key_self : (k : K) (m : List (K × V)) → lookup k (remove_key k m) ≡ none
  unfolding lookup remove_key
  lookup-remove_key_self k [] = refl
  lookup-remove_key_self k ((i, w) ∷ m) = elim (Bool-cases (k == i)) [
    | inl same ↦ rw same (lookup-remove_key_self k m)
    | inr other ↦ rw (other, other) (lookup-remove_key_self k m)
  ]

  pub lookup-remove_key_ne :
      (k j : K) (m : List (K × V)) → (j == k) ≡ false → lookup j (remove_key k m) ≡ lookup j m
  unfolding lookup remove_key
  lookup-remove_key_ne k j [] h = refl
  lookup-remove_key_ne k j ((i, w) ∷ m) h = elim (Bool-cases (k == i)) [
    | inl same ↦
        let ji : (j == i) ≡ false = rw (eq_of_== k i same) at h in
        rw (same, ji) (lookup-remove_key_ne k j m h)
    | inr other ↦ rw other (ap (λ r. if j == i then some w else r) (lookup-remove_key_ne k j m h))
  ]

  pub mem-of_lookup : (k : K) (m : List (K × V)) {v : V} → lookup k m ≡ some v → Memᴰ (k, v) m
  unfolding lookup
  mem-of_lookup k [] h = cc
  mem-of_lookup k ((j, w) ∷ m) {v} h = elim (Bool-cases (k == j)) [
    | inl same ↦
        let found : some w ≡ some v = rw same at h in Memᴰ.head (cc (eq_of_== k j same, found))
    | inr other ↦ Memᴰ.tail (mem-of_lookup k m (rw other at h))
  ]

  pub lookup-insert_self : (k : K) (v : V) (m : List (K × V)) → lookup k (insert k v m) ≡ some v
  unfolding lookup insert
  lookup-insert_self k v [] = rw (==-refl k)
  lookup-insert_self k v ((j, w) ∷ m) = elim (Bool-cases (k == j)) [
    | inl same ↦ rw (same, same)
    | inr other ↦ rw (other, other) (lookup-insert_self k v m)
  ]

  pub lookup-insert_ne :
      (k j : K) (v : V) (m : List (K × V)) → (j == k) ≡ false → lookup j (insert k v m) ≡ lookup j m
  unfolding lookup insert
  lookup-insert_ne k j v [] h = rw h
  lookup-insert_ne k j v ((i, w) ∷ m) h = elim (Bool-cases (k == i)) [
    | inl same ↦ rw same (let ji : (j == i) ≡ false = rw (eq_of_== k i same) at h in rw ji)
    | inr other ↦ rw other (ap (λ r. if j == i then some w else r) (lookup-insert_ne k j v m h))
  ]

  mem-keys : {k : K} {v : V} {m : List (K × V)} → Memᴰ (k, v) m → Memᴰ k (keys m)
  mem-keys (Memᴰ.head p) = Memᴰ.head (ap (λ q. q.0) p)
  mem-keys (Memᴰ.tail r) = Memᴰ.tail (mem-keys r)

  lookup-of_mem-keys :
      (k : K) (m : List (K × V)) → Memᴰ k (keys m) → (v : V) × (lookup k m ≡ some v)
  unfolding lookup
  lookup-of_mem-keys k [] h = elim h [ ]
  lookup-of_mem-keys k ((j, w) ∷ m) h = elim (Bool-cases (k == j)) [
    | inl same ↦ (w, rw same)
    | inr other ↦ elim (mem_cons-cases h) [
      | inl e ↦ absurd (false≢true (sym other ∙ rw e (==-refl j)))
      | inr r ↦ let (v, p) = lookup-of_mem-keys k m r in (v, rw other p)
    ]
  ]

  -- A key is present exactly if it is among the keys.
  pub lookup_iff_mem-keys :
      (k : K) (m : List (K × V)) → ((v : V) × (lookup k m ≡ some v)) ↔ Memᴰ k (keys m)
  lookup_iff_mem-keys k m = (λ (v, h). mem-keys (mem-of_lookup k m h), lookup-of_mem-keys k m)
