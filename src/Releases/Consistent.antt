-- ===== src/Releases/Consistent.antt =====
-- The cache of alws/release_planner.py, of which every entry is about the package of its key.
use albs_web_server.Prelude.{
  ℕ, String, Bool, List, [], ◌∷◌, lookup, insert, ◌==◌, eq_of_==, Eq, string_eq, bool_eq, ok,
  >>=-eq-ok, ok-injective, ◌≡◌, refl, sym, ap, ◌∙◌, ◌⊎◌, inl, inr, Memᴰ, mem_cons-cases, Bool-cases,
  Option-cases, mem_of_eq,
}
use albs_web_server.Releases.Cache.{
  BeholderKey, key_eq, BeholderPackage, BeholderCache, keeps_entry, update_weak_arches,
  weak_arches_of, generate_key, update_with_package, update_beholder_cache,
}

-- Where an entry of a dictionary comes from after a write.
mem_insert-cases {ℓ κ} :
    {K : Type ℓ} {V : Type κ} ⦃e : Eq K⦄ (k : K) (v : V) (m : List (K × V)) {p : K × V}
    → Memᴰ p (insert k v m)
    → (p.0 ≡ k) × (p.1 ≡ v) ⊎ Memᴰ p m
unfolding insert
mem_insert-cases k v [] r = elim (mem_cons-cases r) [
  | inl h ↦ inl (ap (λ q. q.0) h, ap (λ q. q.1) h)
  | inr n ↦ elim n [ ]
]
mem_insert-cases k v ((j, w) ∷ m) r = elim (Bool-cases (k == j)) [
  | inl same ↦ elim (mem_cons-cases (rw same at r)) [
    | inl h ↦ inl (ap (λ q. q.0) h ∙ sym (eq_of_== k j same), ap (λ q. q.1) h)
    | inr n ↦ inr (Memᴰ.tail n)
  ]
  | inr other ↦ elim (mem_cons-cases (rw other at r)) [
    | inl h ↦ inr (Memᴰ.head h)
    | inr n ↦ elim (mem_insert-cases k v m n) [ inl new ↦ inl new | inr old ↦ inr (Memᴰ.tail old) ]
  ]
]

-- An entry is about a package of the key's name and version.
abbrev pub IsAbout : BeholderKey → BeholderPackage → Type 0
IsAbout key pkg = (pkg.name ≡ key.name) × (pkg.version ≡ key.version)

abbrev pub IsConsistent : BeholderCache → Type 0
IsConsistent cache = (p : BeholderKey × BeholderPackage) → Memᴰ p cache → IsAbout p.0 p.1

insert-IsConsistent :
    (key : BeholderKey) (pkg : BeholderPackage) (cache : BeholderCache)
    → IsAbout key pkg
    → IsConsistent cache
    → IsConsistent (insert key pkg cache)
insert-IsConsistent key pkg cache about consistent p m = elim (mem_insert-cases key pkg cache m) [
  | inr old ↦ consistent p old
  | inl (k, v) ↦ (
    ap (λ (b : BeholderPackage). b.name) v ∙ (about.0 ∙ sym (ap (λ (j : BeholderKey). j.name) k)),
    ap (λ (b : BeholderPackage). b.version) v
        ∙ (about.1 ∙ sym (ap (λ (j : BeholderKey). j.version) k)),
  )
]

update_weak_arches-IsConsistent :
    (key_of : String → BeholderKey) (pkg : BeholderPackage) (priority : ℕ) (arches : List String)
    (cache : BeholderCache) {cache' : BeholderCache}
    → ((arch : String) → IsAbout (key_of arch) pkg)
    → update_weak_arches key_of pkg priority arches cache ≡ ok cache'
    → IsConsistent cache
    → IsConsistent cache'
unfolding update_weak_arches
update_weak_arches-IsConsistent key_of pkg priority [] cache about e consistent =
    λ p m. consistent p (mem_of_eq (ok-injective e) m)
update_weak_arches-IsConsistent key_of pkg priority (arch ∷ arches) cache about e consistent =
    elim (Bool-cases (keeps_entry arch priority (lookup (key_of arch) cache))) [
      | inl kept ↦
          update_weak_arches-IsConsistent key_of pkg priority arches cache about
            (rw (kept, update_weak_arches) at e) consistent
      | inr replaced ↦ elim (Option-cases pkg.repositories) [
        | inl missing ↦ cc (rw (replaced, missing, update_weak_arches) at e)
        | inr (repositories, found) ↦
            update_weak_arches-IsConsistent key_of pkg priority arches _ about
              (rw (replaced, found, update_weak_arches) at e)
              (insert-IsConsistent (key_of arch) _ cache (about arch) consistent)
      ]
    ]

module _ (clean_name : String → String) (strong_arches : List (String × List String))
    (is_beta is_devel : Bool) (priority : ℕ) (matched : String) where
  update_with_package-IsConsistent :
      (pkg : BeholderPackage) (cache : BeholderCache) {cache' : BeholderCache}
      → update_with_package clean_name strong_arches is_beta is_devel priority matched pkg cache
        ≡ ok cache'
      → IsConsistent cache
      → IsConsistent cache'
  unfolding update_with_package generate_key
  update_with_package-IsConsistent pkg cache e consistent =
      update_weak_arches-IsConsistent (generate_key pkg is_beta is_devel) _ priority
        (weak_arches_of strong_arches pkg.arch) _ (λ arch. (refl, refl)) e
        (insert-IsConsistent (generate_key pkg is_beta is_devel pkg.arch) _ cache (refl, refl)
          consistent)

  pub update_beholder_cache-IsConsistent :
      (packages : List BeholderPackage) (cache : BeholderCache) {cache' : BeholderCache}
      → update_beholder_cache clean_name strong_arches is_beta is_devel priority matched cache
          packages
        ≡ ok cache'
      → IsConsistent cache
      → IsConsistent cache'
  unfolding update_beholder_cache
  update_beholder_cache-IsConsistent [] cache e consistent =
      λ p m. consistent p (mem_of_eq (ok-injective e) m)
  update_beholder_cache-IsConsistent (pkg ∷ packages) cache e consistent =
      let (updated, one, rest) =
        >>=-eq-ok
          (update_with_package clean_name strong_arches is_beta is_devel priority matched pkg cache)
          _ e in
      update_beholder_cache-IsConsistent packages updated rest
        (update_with_package-IsConsistent pkg cache one consistent)
