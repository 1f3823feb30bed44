-- ===== src/Planner/Tests.antt =====
-- The dependencies of two projects on src and x86_64. A task is the number that is its rank.
use albs_web_server.Prelude.{
  ℕ, zero, suc, ◌+◌, ◌*◌, ◌<◌, string_eq, ◌∙◌, String, true, false, List, [], ◌∷◌, lookup,
  get_elem?, some, ok, err, Error, ◌≡◌, refl, sym, ap, ◌↔◌, Memᴰ, mem_cons-cases, inl, inr, arith,
  some_eq, ok-injective,
}
use albs_web_server.Planner.Dependencies.{
  chain, task_edges, arch_loop, arch_edges, first_arch, other_arches, platform_edges,
  is_independent, build_dependency_map,
}
use mathlib.Core.Bool.{false≢true}
use albs_web_server.Planner.Order.{
  PlatformWaits, platform_edges_iff, build_dependency_map-total, IsRanked,
  build_dependency_map-rank,
}

abbrev cache : List (String × List ℕ)
cache = ("x86_64", 1 ∷ 3 ∷ 5 ∷ []) ∷ ("src", 0 ∷ 2 ∷ 4 ∷ []) ∷ []

abbrev caches : List (String × List (String × List ℕ))
caches = ("AlmaLinux-9", cache) ∷ []

planning : Unit {0}
unfolding build_dependency_map platform_edges other_arches arch_edges arch_loop task_edges chain
    first_arch is_independent lookup
planning = tt

abbrev edges : List (ℕ × ℕ)
edges = (2, 0) ∷ (4, 2) ∷ (1, 0) ∷ (3, 2) ∷ (3, 1) ∷ (5, 4) ∷ (5, 1) ∷ (5, 3) ∷ []

planned : build_dependency_map [] caches ≡ ok edges
unfolding planning
planned = refl

independent_edges :
    build_dependency_map (("AlmaLinux-9", true) ∷ []) caches ≡ ok ((1, 0) ∷ (3, 2) ∷ (5, 4) ∷ [])
unfolding planning
independent_edges = refl

-- An architecture with more tasks than the first one.
too_many :
    platform_edges {A = ℕ} false (("src", 0 ∷ []) ∷ ("x86_64", 1 ∷ 3 ∷ []) ∷ [])
    ≡ err Error.index_error
unfolding planning
too_many = refl

platform_edges_iff_example :
    Memᴰ (5, 1) edges ↔ PlatformWaits false ("src", 0 ∷ 2 ∷ 4 ∷ []) cache 5 1
platform_edges_iff_example =
    platform_edges_iff false cache ("src", 0 ∷ 2 ∷ 4 ∷ []) 5 1 (unfold planning in refl)
      (unfold planning in refl)

build_dependency_map-total_example : (es : List (ℕ × ℕ)) × (build_dependency_map [] caches ≡ ok es)
build_dependency_map-total_example = build_dependency_map-total [] caches ((3, omega arith), tt)

src_is_first :
    {entry : String × List ℕ} → first_arch cache ≡ ok entry → entry ≡ ("src", 0 ∷ 2 ∷ 4 ∷ [])
unfolding first_arch lookup
src_is_first e = sym (ok-injective e)

abbrev firsts : List ℕ
firsts = 0 ∷ 2 ∷ 4 ∷ []

first_rank : (i x : ℕ) → get_elem? firsts i ≡ some x → x ≡ 2 * i
first_rank zero x e = omega (arith, some_eq e)
first_rank (suc zero) x e = omega (arith, some_eq e)
first_rank (suc (suc zero)) x e = omega (arith, some_eq e)
first_rank (suc (suc (suc i))) x e = cc

abbrev others : List ℕ
others = 1 ∷ 3 ∷ 5 ∷ []

other_rank : (i x : ℕ) → get_elem? others i ≡ some x → x ≡ 2 * i + 1
other_rank zero x e = omega (arith, some_eq e)
other_rank (suc zero) x e = omega (arith, some_eq e)
other_rank (suc (suc zero)) x e = omega (arith, some_eq e)
other_rank (suc (suc (suc i))) x e = cc

cache-IsRanked : IsRanked (λ x. x) cache
cache-IsRanked = record {
  first_ranks = λ entry i x f e.
      first_rank i x (rw (ap (λ (q : String × List ℕ). q.1) (src_is_first f)) at e);
  other_ranks = λ entry arch tasks i x f m o e. elim (mem_cons-cases m) [
    | inl q ↦ other_rank i x (rw (ap (λ (q : String × List ℕ). q.1) q) at e)
    | inr r ↦ elim (mem_cons-cases r) [
      | inl q ↦ absurd (
          false≢true (
            sym o
            ∙ rw
                (
                  ap (λ (q : String × List ℕ). q.0) q,
                  ap (λ (q : String × List ℕ). q.0) (src_is_first f),
                )
                refl))
      | inr r' ↦ elim r' [ ]
    ]
  ];
}

build_dependency_map-rank_example : 1 < 5
build_dependency_map-rank_example =
    build_dependency_map-rank (λ x. x) [] caches 5 1 (cache-IsRanked, tt) planned
      (Memᴰ.tail (Memᴰ.tail (Memᴰ.tail (Memᴰ.tail (Memᴰ.tail (Memᴰ.tail (Memᴰ.head refl)))))))
