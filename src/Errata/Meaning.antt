-- ===== src/Errata/Meaning.antt =====
-- What the criteria of an OVAL definition say (alws/crud/errata.py), before and after
-- CriteriaNode.simplify.
use albs_web_server.Prelude.{
  suc, neq_test, String, Bool, true, false, not, List, [], ◌∷◌, ◌++◌, length, is_empty,
  if◌then◌else◌, ◌&&◌, ◌||◌, string_eq, ◌==◌, ◌≡◌, refl, sym, ap, ◌∙◌, ◌⊎◌, inl, inr, Bool-cases,
  arith,
}
use albs_web_server.Errata.{
  Criterion, Criteria, node, Children, no_child, child, has_children, is_empty_node, give_to_parent,
  simplify, simplify_children,
}

-- "AND" asks for all of them, any other operator for one.
unfoldable pub combine : String → Bool → Bool → Bool
combine operator p q = if operator == "AND" then p && q else p || q

unfoldable pub nothing : String → Bool
nothing operator = operator == "AND"

-- Whether a system is affected, given which criterions hold of it.
module _ (holds : Criterion → Bool) where
  unfoldable pub list_holds : String → List Criterion → Bool
  list_holds operator [] = nothing operator
  list_holds operator (c ∷ cs) = combine operator (holds c) (list_holds operator cs)

  unfoldable mutual
    pub node_holds : Criteria → Bool
    node_holds (node operator criterion criteria) =
        combine operator (list_holds operator criterion) (children_hold operator criteria)

    pub children_hold : String → Children → Bool
    children_hold operator no_child = nothing operator
    children_hold operator (child criteria others) =
        combine operator (node_holds criteria) (children_hold operator others)

-- Every child has something in it.
unfoldable mutual
  pub NoEmpty : Criteria → Type 0
  NoEmpty (node operator criterion criteria) = NoEmptyChildren criteria

  pub NoEmptyChildren : Children → Type 0
  NoEmptyChildren no_child = Unit {0}
  NoEmptyChildren (child criteria others) =
      (is_empty_node criteria ≡ false) × (NoEmpty criteria × NoEmptyChildren others)

combine-nothing : (operator : String) (p : Bool) → combine operator p (nothing operator) ≡ p
unfolding combine nothing
combine-nothing operator p = ground arith

nothing-combine : (operator : String) (p : Bool) → combine operator (nothing operator) p ≡ p
unfolding combine nothing
nothing-combine operator p = ground arith

combine_assoc :
    (operator : String) (p q r : Bool)
    → combine operator (combine operator p q) r ≡ combine operator p (combine operator q r)
unfolding combine
combine_assoc operator p q r = ground arith

combine_left :
    (operator : String) (p q r : Bool)
    → combine operator p (combine operator q r) ≡ combine operator q (combine operator p r)
unfolding combine
combine_left operator p q r = ground arith

module _ (holds : Criterion → Bool) where
  list_holds-append :
      (operator : String) (cs ds : List Criterion)
      → list_holds holds operator (cs ++ ds)
        ≡ combine operator (list_holds holds operator cs) (list_holds holds operator ds)
  unfolding list_holds
  list_holds-append operator [] ds = sym (nothing-combine operator (list_holds holds operator ds))
  list_holds-append operator (c ∷ cs) ds =
      ap (combine operator (holds c)) (list_holds-append operator cs ds)
      ∙ sym (
          combine_assoc operator (holds c) (list_holds holds operator cs)
            (list_holds holds operator ds))

  -- What a simplified child comes to: it is kept and gives nothing, or it gives one criterion.
  record Simplified (before : Criteria) (after : Criteria × List Criterion) : Type 0 where
    effect :
        (is_empty_node after.0 ≡ false)
          × (after.1 ≡ [])
          × (node_holds holds after.0 ≡ node_holds holds before)
        ⊎ (is_empty_node after.0 ≡ true)
          × ((c : Criterion) × (after.1 ≡ c ∷ []) × (holds c ≡ node_holds holds before))

  record SimplifiedAll (before : Children) (after : Children × List Criterion) : Type 0 where
    same :
        (operator : String)
        → combine operator
            (list_holds holds operator after.1)
            (children_hold holds operator after.0)
          ≡ children_hold holds operator before
    filled : has_children before ≡ true → (has_children after.0 || not (is_empty after.1)) ≡ true

  give_to_parent-Simplified :
      (operator : String) (cs : List Criterion) (kept : Children)
      → (is_empty cs && not (has_children kept)) ≡ false
      → Simplified (node operator cs kept) (give_to_parent true operator cs kept)
  unfolding give_to_parent node_holds children_hold list_holds
  give_to_parent-Simplified operator [] no_child h = cc
  give_to_parent-Simplified operator [] (child k ks) h = record { effect = inl (refl, refl, refl) }
  give_to_parent-Simplified operator (c ∷ []) no_child h = record {
    effect = inr (
      refl,
      (
        c,
        refl,
        sym (
            combine-nothing operator (combine operator (holds c) (nothing operator))
            ∙ combine-nothing operator (holds c)),
      ),
    );
  }
  give_to_parent-Simplified operator (c ∷ []) (child k ks) h = record {
    effect = inl (refl, refl, refl);
  }
  give_to_parent-Simplified operator (c ∷ d ∷ cs) no_child h =
      let more = neq_test (suc (suc (length cs))) 1 (λ e. omega arith) in
      rw (more, give_to_parent) (record { effect = inl (refl, refl, refl) })
  give_to_parent-Simplified operator (c ∷ d ∷ cs) (child k ks) h =
      let more = neq_test (suc (suc (length cs))) 1 (λ e. omega arith) in
      rw (more, give_to_parent) (record { effect = inl (refl, refl, refl) })

  -- The children may be replaced by what is kept of them and what they give.
  regrouped :
      (operator : String) (cs moved : List Criterion) (kept kids : Children)
      → combine operator (list_holds holds operator moved) (children_hold holds operator kept)
        ≡ children_hold holds operator kids
      → node_holds holds (node operator (cs ++ moved) kept)
        ≡ node_holds holds (node operator cs kids)
  unfolding node_holds
  regrouped operator cs moved kept kids same =
      ap (λ p. combine operator p (children_hold holds operator kept))
        (list_holds-append operator cs moved)
      ∙ (combine_assoc operator (list_holds holds operator cs) (list_holds holds operator moved)
            (children_hold holds operator kept)
          ∙ ap (combine operator (list_holds holds operator cs)) same)

  no_step : SimplifiedAll no_child (no_child, [])
  unfolding children_hold list_holds
  no_step = record {
    same = λ operator. combine-nothing operator (nothing operator);
    filled = λ h. cc;
  }

  node_step :
      (operator : String) (cs : List Criterion) (kids : Children) (r : Children × List Criterion)
      → is_empty_node (node operator cs kids) ≡ false
      → SimplifiedAll kids r
      → Simplified (node operator cs kids) (give_to_parent true operator (cs ++ r.1) r.0)
  node_step operator cs kids r h all =
      let given = give_to_parent-Simplified operator (cs ++ r.1) r.0 (still_filled cs h) in
      let whole = regrouped operator cs r.1 r.0 kids (all.same operator) in
      record {
        effect = elim given.effect [
          | inl (kept, none', e) ↦ inl (kept, none', e ∙ whole)
          | inr (gone, (c, one, e)) ↦ inr (gone, (c, one, e ∙ whole))
        ];
      }
    where
      still_filled :
          (cs : List Criterion)
          → (is_empty cs && not (has_children kids)) ≡ false
          → (is_empty (cs ++ r.1) && not (has_children r.0)) ≡ false
      still_filled (c ∷ cs) k = refl
      still_filled [] k =
          let filled = all.filled in
          elim (Bool-cases (has_children kids)) [
            | inl some' ↦ let known = filled some' in ground (arith, known)
            | inr none' ↦ cc (rw none' at k)
          ]

  child_step :
      (k : Criteria) (ks : Children) (one : Criteria × List Criterion)
      (rest : Children × List Criterion)
      → Simplified k one
      → SimplifiedAll ks rest
      → SimplifiedAll
          (child k ks)
          (if is_empty_node one.0 then rest.0 else child one.0 rest.0, one.1 ++ rest.1)
  unfolding children_hold list_holds
  child_step k ks (k', given) rest simplified all = elim simplified.effect [
    | inl (kept, none', e) ↦
        rw (kept, none')
          (record {
            same = λ operator.
                combine_left operator (list_holds holds operator rest.1) (node_holds holds k')
                  (children_hold holds operator rest.0)
                ∙ (ap
                      (λ p. combine operator p (
                        combine operator (list_holds holds operator rest.1)
                          (children_hold holds operator rest.0)))
                      e
                    ∙ ap (combine operator (node_holds holds k)) (all.same operator));
            filled = λ _. refl;
          })
    | inr (gone, (c, one', e)) ↦
        rw (gone, one')
          (record {
            same = λ operator.
                combine_assoc operator (holds c) (list_holds holds operator rest.1)
                  (children_hold holds operator rest.0)
                ∙ (ap
                      (λ p. combine operator p (
                        combine operator (list_holds holds operator rest.1)
                          (children_hold holds operator rest.0)))
                      e
                    ∙ ap (combine operator (node_holds holds k)) (all.same operator));
            filled = λ _. ground arith;
          })
  ]

  mutual
    unfolding simplify simplify_children NoEmpty NoEmptyChildren

    simplify-Simplified :
        (n : Criteria) → is_empty_node n ≡ false → NoEmpty n → Simplified n (simplify true n)
    simplify-Simplified (node operator cs kids) h full =
        node_step operator cs kids (simplify_children kids) h
          (simplify_children-SimplifiedAll kids full)

    simplify_children-SimplifiedAll :
        (kids : Children) → NoEmptyChildren kids → SimplifiedAll kids (simplify_children kids)
    simplify_children-SimplifiedAll no_child full = no_step
    simplify_children-SimplifiedAll (child k ks) full =
        child_step k ks (simplify true k) (simplify_children ks)
          (simplify-Simplified k full.0 full.1.0) (simplify_children-SimplifiedAll ks full.1.1)

  -- Where no criteria inside are empty, the simplified criteria of a definition say the same of
  -- every system as the original ones.
  pub simplify-node_holds :
      (n : Criteria) → NoEmpty n → node_holds holds (simplify false n).0 ≡ node_holds holds n
  unfolding simplify NoEmpty give_to_parent
  simplify-node_holds (node operator cs kids) full =
      regrouped operator cs (simplify_children kids).1 (simplify_children kids).0 kids
        ((simplify_children-SimplifiedAll kids full).same operator)
