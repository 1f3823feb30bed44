-- ===== src/Users/Unlinked.antt =====
-- What holds of a user whose removal is queued (alws/crud/user.py).
use albs_web_server.Prelude.{
  ℕ, String, Bool, true, false, not, List, [], ◌∷◌, map, filter, contains, contains_iff, is_empty,
  length, nat_beq, nat_beq_iff, ◌==◌, nat_eq, ◌&&◌, ◌||◌, ok, Error, >>-eq-ok, ◌≡◌, refl, sym, ◌∙◌,
  inl, inr, Memᴰ, mem-filter_of_mem, mem-map_of_mem, is_empty-of_mem, Bool-cases, and_true,
  not-false, arith,
}
use mathlib.Core.Bool.{false≢true}
use albs_web_server.Users.Removal.{
  OwnedBuild, BuildDependency, Owned, build_ids_of, dependent_build_ids, user_artifacts,
  check_valuable_artifacts, remove_user,
}

-- Nothing is counted of a list that is empty where the names are.
counted_zero :
    (counts : List (String × ℕ)) (name : String) (n : ℕ)
    → is_empty
        (map (λ (a : String × ℕ). a.0) (filter (λ (a : String × ℕ). not (nat_beq a.1 0)) counts))
      ≡ true
    → Memᴰ (name, n) counts
    → n ≡ 0
counted_zero counts name n nothing m = elim (Bool-cases (nat_beq n 0)) [
  | inl zero' ↦ (nat_beq_iff n 0).0 zero'
  | inr some' ↦
      let kept =
        mem-map_of_mem (λ (a : String × ℕ). a.0)
          (mem-filter_of_mem (λ (a : String × ℕ). not (nat_beq a.1 0)) m (not-false some')) in
      absurd (false≢true (sym (is_empty-of_mem kept) ∙ nothing))
]

no_member {ℓ} : {A : Type ℓ} {a : A} (xs : List A) → length xs ≡ 0 → ¬ Memᴰ a xs
no_member [] e m = elim m [ ]
no_member (x ∷ xs) e m = absurd (omega (arith, e))

accepted :
    (user_id : ℕ) (db : Owned)
    → remove_user user_id db ≡ ok tt
    → is_empty (check_valuable_artifacts user_id db) ≡ true
unfolding remove_user
accepted user_id db e =
    let (_, rest) = >>-eq-ok (not (contains db.users user_id)) Error.user_error _ e in
    let (clean, _) =
      >>-eq-ok (not (is_empty (check_valuable_artifacts user_id db))) Error.user_error _ rest in
    double (is_empty (check_valuable_artifacts user_id db)) clean
  where
    double : (b : Bool) → not b ≡ false → b ≡ true
    double true h = refl
    double false h = cc

-- If the removal of a user is queued, then no build of the user is released or signed, and a build
-- that is linked to a build of the user is a build of the user too.
pub remove_user-unlinked :
    (user_id : ℕ) (db : Owned)
    → remove_user user_id db ≡ ok tt
    → ((b : OwnedBuild)
        → Memᴰ b db.builds
        → b.owner_id ≡ user_id
        → (b.released || b.signed) ≡ false)
      × ((d : BuildDependency)
          → Memᴰ d db.build_dependencies
          → Memᴰ d.build_dependency (build_ids_of user_id db)
          → Memᴰ d.build_id (build_ids_of user_id db))
unfolding check_valuable_artifacts user_artifacts dependent_build_ids
remove_user-unlinked user_id db e =
    let clean = accepted user_id db e in
    let zero_of = λ (name : String) (n : ℕ) (m : Memᴰ (name, n) (user_artifacts user_id db)).
      counted_zero (user_artifacts user_id db) name n clean m in
    (
      λ b m own. elim (Bool-cases (b.released || b.signed)) [
        | inr no' ↦ no'
        | inl yes' ↦ absurd (
            no_member (filter (λ b. b.owner_id == user_id && (b.released || b.signed)) db.builds)
              (zero_of "released_builds" _ (Memᴰ.tail (Memᴰ.head refl)))
              (mem-filter_of_mem
                (λ (b : OwnedBuild). b.owner_id == user_id && (b.released || b.signed)) m
                (and_true ((nat_beq_iff b.owner_id user_id).1 own) yes')))
      ],
      λ d m linked. elim (Bool-cases (contains (build_ids_of user_id db) d.build_id)) [
        | inl own ↦ (contains_iff (build_ids_of user_id db) d.build_id).0 own
        | inr foreign ↦ absurd (
            no_member
              (filter (λ b. not (contains (build_ids_of user_id db) b))
                (dependent_build_ids user_id db))
              (zero_of "linked_builds" _ (Memᴰ.tail (Memᴰ.tail (Memᴰ.head refl))))
              (mem-filter_of_mem (λ (b : ℕ). not (contains (build_ids_of user_id db) b))
                (mem-map_of_mem (λ (x : BuildDependency). x.build_id)
                  (mem-filter_of_mem
                    (λ (x : BuildDependency). contains (build_ids_of user_id db) x.build_dependency)
                    m ((contains_iff (build_ids_of user_id db) d.build_dependency).1 linked)))
                (not-false foreign)))
      ],
    )
