-- ===== src/Planner/Platform.antt =====
-- The dependencies of a platform and of a whole build (BuildPlanner.build_dependency_map,
-- alws/build_planner.py), and the caches on which the method raises nothing.
use albs_web_server.Prelude.{
  ℕ, ◌<◌, String, Bool, true, false, List, [], ◌∷◌, ◌++◌, keys, lookup, length, is_empty,
  if◌then◌else◌, Bool-cases, Option-cases, ok, >>=-eq-ok, ok-injective, ◌≡◌, refl, sym, ap, ◌∙◌,
  inl, inr, Memᴰ, All, mem_cons-cases, mem_append-cases, mem-append_left, mem-append_right,
  mem_of_eq, mem-of_lookup, append-nil, nat_beq, nat_beq_iff, ◌==◌, ==-refl, string_eq, nat_eq,
  arith,
}
use mathlib.Core.Bool.{false≢true}
use albs_web_server.Planner.Dependencies.{
  chain, arch_edges, any_arch, first_arch, other_arches, platform_edges,
}
use albs_web_server.Planner.Edges.{Waits, arch_edges_iff, arch_edges-total}

module _ {A : Type 0} where
  -- The task of another architecture waits for another task.
  pub record OtherWaits (independent : Bool) (first : String) (firsts : List A)
      (cache : List (String × List A)) (t d : A) : Type 0 where
    pub arch : String
    pub tasks : List A
    pub cached : Memᴰ (arch, tasks) cache
    pub other : (arch == first) ≡ false
    pub waits : Waits independent firsts [] tasks t d

  weaken :
      {independent : Bool} {first : String} {firsts : List A} {entry : String × List A}
      {cache : List (String × List A)} {t d : A}
      → OtherWaits independent first firsts cache t d
      → OtherWaits independent first firsts (entry ∷ cache) t d
  weaken w = record {
    arch = w.arch;
    tasks = w.tasks;
    cached = Memᴰ.tail w.cached;
    other = w.other;
    waits = w.waits;
  }

  pub other_arches_sound :
      (independent : Bool) (first : String) (firsts : List A) (cache : List (String × List A))
      {edges : List (A × A)} (t d : A)
      → other_arches independent first firsts cache ≡ ok edges
      → Memᴰ (t, d) edges
      → OtherWaits independent first firsts cache t d
  unfolding other_arches
  other_arches_sound independent first firsts [] t d e m = elim (mem_of_eq (ok-injective e) m) [ ]
  other_arches_sound independent first firsts ((arch, tasks) ∷ cache) t d e m =
      elim (Bool-cases (arch == first)) [
        | inl same ↦ weaken (other_arches_sound independent first firsts cache t d (rw same at e) m)
        | inr other ↦
            let (es, found, rest) =
              >>=-eq-ok (arch_edges independent firsts tasks) _ (rw other at e) in
            let (more, found', whole) =
              >>=-eq-ok (other_arches independent first firsts cache) _ rest in
            elim (mem_append-cases es (mem_of_eq (ok-injective whole) m)) [
              | inl here ↦ record {
                arch = arch;
                tasks = tasks;
                cached = Memᴰ.head refl;
                other = other;
                waits = (arch_edges_iff independent firsts tasks t d found).0 here;
              }
              | inr there ↦
                  weaken (other_arches_sound independent first firsts cache t d found' there)
            ]
      ]

  pub other_arches-complete :
      (independent : Bool) (first : String) (firsts : List A) (cache : List (String × List A))
      {edges : List (A × A)} (t d : A) (arch : String) (tasks : List A)
      → other_arches independent first firsts cache ≡ ok edges
      → Memᴰ (arch, tasks) cache
      → (arch == first) ≡ false
      → Waits independent firsts [] tasks t d
      → Memᴰ (t, d) edges
  unfolding other_arches
  other_arches-complete independent first firsts [] t d arch tasks e c o w = elim c [ ]
  other_arches-complete independent first firsts ((a, l) ∷ cache) t d arch tasks e c o w =
      elim (Bool-cases (a == first)) [
        | inl same ↦ elim (mem_cons-cases c) [
          | inl p ↦ absurd (false≢true (sym o ∙ rw (ap (λ q. q.0) p) same))
          | inr r ↦
              other_arches-complete independent first firsts cache t d arch tasks (rw same at e) r o
                w
        ]
        | inr other ↦
            let (es, found, rest) = >>=-eq-ok (arch_edges independent firsts l) _ (rw other at e) in
            let (more, found', whole) =
              >>=-eq-ok (other_arches independent first firsts cache) _ rest in
            mem_of_eq (sym (ok-injective whole)) (elim (mem_cons-cases c) [
              | inl p ↦
                  mem-append_left more
                    ((arch_edges_iff independent firsts l t d found).1 (rw (ap (λ q. q.1) p) at w))
              | inr r ↦
                  mem-append_right es (
                    other_arches-complete independent first firsts cache t d arch tasks found' r o
                      w)
            ])
      ]

  -- Every architecture has the same number of tasks, and at least one.
  abbrev pub IsRectangular : ℕ → List (String × List A) → Type 0
  IsRectangular n cache =
      (0 < n) × (0 < length (keys cache)) × All (λ entry. length entry.1 ≡ n) cache

  pub other_arches-total :
      (n : ℕ) (independent : Bool) (first : String) (firsts : List A)
      (cache : List (String × List A))
      → 0 < n
      → length firsts ≡ n
      → All (λ entry. length entry.1 ≡ n) cache
      → (edges : List (A × A)) × (other_arches independent first firsts cache ≡ ok edges)
  unfolding other_arches
  other_arches-total n independent first firsts [] pos f h = ([], refl)
  other_arches-total n independent first firsts ((arch, tasks) ∷ cache) pos f h =
      let (more, found') = other_arches-total n independent first firsts cache pos f h.1 in
      let (es, found) = arch_edges-total independent firsts tasks (omega arith) (omega arith) in
      elim (Bool-cases (arch == first)) [
        | inl same ↦ (more, rw same found')
        | inr other ↦ (es ++ more, rw (other, found, found'))
      ]

  any_arch-mem :
      (cache : List (String × List A)) {entry : String × List A}
      → any_arch cache ≡ ok entry
      → Memᴰ entry cache
  unfolding any_arch
  any_arch-mem [] e = cc
  any_arch-mem (x ∷ xs) e = Memᴰ.head (sym (ok-injective e))

  -- The first architecture is one of the cache.
  pub first_arch-mem :
      (cache : List (String × List A)) {entry : String × List A}
      → first_arch cache ≡ ok entry
      → Memᴰ entry cache
  unfolding first_arch
  first_arch-mem cache {entry} e = elim (Option-cases (lookup "src" cache)) [
    | inl no_src ↦ any_arch-mem cache (rw (no_src, first_arch) at e)
    | inr (tasks, src) ↦ elim (Bool-cases (is_empty tasks)) [
      | inl empty ↦ any_arch-mem cache (rw empty at (rw (src, first_arch) at e))
      | inr full ↦
          rw (← ok-injective (rw full at (rw (src, first_arch) at e)))
            (mem-of_lookup "src" cache src)
    ]
  ]

  pub first_arch-total :
      (cache : List (String × List A))
      → 0 < length (keys cache)
      → (entry : String × List A) × (first_arch cache ≡ ok entry)
  unfolding first_arch any_arch
  first_arch-total [] h = absurd (omega arith)
  first_arch-total (x ∷ xs) h = elim (Option-cases (lookup "src" (x ∷ xs))) [
    | inl no_src ↦ (x, rw (no_src, first_arch))
    | inr (tasks, src) ↦ elim (Bool-cases (is_empty tasks)) [
      | inl empty ↦ (x, rw (src, first_arch) (rw empty))
      | inr full ↦ (("src", tasks), rw (src, first_arch) (rw full))
    ]
  ]

  abbrev pub own_edges : Bool → List A → List (A × A)
  own_edges independent firsts = if independent then [] else chain firsts

  -- The parts of the edges of a platform. With one architecture the loop over the others would add
  -- nothing, so that skipping it changes nothing.
  pub record Parts (independent : Bool) (cache : List (String × List A)) (edges : List (A × A))
      : Type 0 where
    pub first : String
    pub firsts : List A
    pub is_first : first_arch cache ≡ ok (first, firsts)
    pub more : List (A × A)
    pub others : other_arches independent first firsts cache ≡ ok more
    pub whole : edges ≡ own_edges independent firsts ++ more

  only_arch :
      (independent : Bool) (first : String) (firsts : List A) (cache : List (String × List A))
      → first_arch cache ≡ ok (first, firsts)
      → nat_beq (length (keys cache)) 1 ≡ true
      → other_arches independent first firsts cache ≡ ok []
  unfolding other_arches
  only_arch independent first firsts [] f one = refl
  only_arch independent first firsts ((a, l) ∷ []) f one =
      elim (mem_cons-cases (first_arch-mem _ f)) [
        | inl e ↦ rw (ap (λ p. p.0) e) (rw (==-refl a))
        | inr r ↦ elim r [ ]
      ]
  only_arch independent first firsts (x ∷ y ∷ cache) f one =
      absurd (omega (arith, (nat_beq_iff _ _).0 one))

  pub platform_edges-Parts :
      (independent : Bool) (cache : List (String × List A)) {edges : List (A × A)}
      → platform_edges independent cache ≡ ok edges
      → Parts independent cache edges
  unfolding platform_edges
  platform_edges-Parts independent cache e =
      let (entry, is_first, rest) = >>=-eq-ok (first_arch cache) _ e in
      elim (Bool-cases (nat_beq (length (keys cache)) 1)) [
        | inl one ↦ record {
          first = entry.0;
          firsts = entry.1;
          is_first = is_first;
          more = [];
          others = only_arch independent entry.0 entry.1 cache is_first one;
          whole = sym (ok-injective (rw one at rest)) ∙ sym (append-nil _);
        }
        | inr several ↦
            let (more, others, whole) =
              >>=-eq-ok (other_arches independent entry.0 entry.1 cache) _ (rw several at rest) in
            record {
              first = entry.0;
              firsts = entry.1;
              is_first = is_first;
              more = more;
              others = others;
              whole = sym (ok-injective whole);
            }
      ]
