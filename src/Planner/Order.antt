-- ===== src/Planner/Order.antt =====
-- The order that BuildPlanner.build_dependency_map (alws/build_planner.py) puts on the tasks of a
-- build.
use albs_web_server.Prelude.{
  ℕ, suc, ◌<◌, ◌+◌, ◌*◌, String, Bool, true, false, List, [], ◌∷◌, ◌++◌, keys, get_elem?, some,
  length, Bool-cases, ok, >>=-eq-ok, ok-injective, ◌≡◌, refl, sym, ap, ◌∙◌, ◌↔◌, ◌⊎◌, inl, inr,
  Memᴰ, All, mem-of_All, mem_append-cases, mem-append_left, mem-append_right, mem_of_eq, nat_beq,
  ◌==◌, string_eq, nat_eq, arith,
}
use albs_web_server.Planner.Dependencies.{
  chain, first_arch, other_arches, platform_edges, is_independent, build_dependency_map,
}
use albs_web_server.Planner.Edges.{chain_from_iff, Waits, mem-take}
use albs_web_server.Planner.Platform.{
  OtherWaits, other_arches_sound, other_arches-complete, IsRectangular, other_arches-total,
  first_arch-mem, first_arch-total, own_edges, platform_edges-Parts,
}

module _ {A : Type 0} where
  -- `t` stands behind `d` in the list.
  abbrev pub IsNext : List A → A → A → Type 0
  IsNext tasks t d = (i : ℕ) × (get_elem? tasks (suc i) ≡ some t) × (get_elem? tasks i ≡ some d)

  chain_iff : (tasks : List A) (t d : A) → Memᴰ (t, d) (chain tasks) ↔ IsNext tasks t d
  unfolding chain
  chain_iff [] t d = (λ m. elim m [ ], λ (i, p, q). cc)
  chain_iff (x ∷ xs) t d = chain_from_iff x xs t d

  -- What a task of the platform waits for: in the first architecture for the task before it, unless
  -- the tasks are independent, and otherwise as `OtherWaits` says.
  abbrev pub PlatformWaits : Bool → String × List A → List (String × List A) → A → A → Type 0
  PlatformWaits independent entry cache t d =
      (independent ≡ false) × IsNext entry.1 t d ⊎ OtherWaits independent entry.0 entry.1 cache t d

  own_edges_iff :
      (independent : Bool) (firsts : List A) (t d : A)
      → Memᴰ (t, d) (own_edges independent firsts) ↔ ((independent ≡ false) × IsNext firsts t d)
  own_edges_iff true firsts t d = (λ m. elim m [ ], λ (p, q). cc)
  own_edges_iff false firsts t d =
      (λ m. (refl, (chain_iff firsts t d).0 m), λ (p, q). (chain_iff firsts t d).1 q)

  parts_at :
      (independent : Bool) (cache : List (String × List A)) (entry : String × List A)
      {edges : List (A × A)}
      → first_arch cache ≡ ok entry
      → platform_edges independent cache ≡ ok edges
      → (more : List (A × A)) × (other_arches independent entry.0 entry.1 cache ≡ ok more)
        × (edges ≡ own_edges independent entry.1 ++ more)
  parts_at independent cache entry first e =
      let p = platform_edges-Parts independent cache e in
      let same : entry ≡ (p.first, p.firsts) = ok-injective (sym first ∙ p.is_first) in
      (
        p.more,
        rw (ap (λ q. q.0) same, ap (λ q. q.1) same) p.others,
        rw (ap (λ q. q.1) same) p.whole,
      )

  -- The dependencies that a platform gets are exactly those of `PlatformWaits`, for the architecture
  -- that is built first.
  pub platform_edges_iff :
      (independent : Bool) (cache : List (String × List A)) (entry : String × List A)
      {edges : List (A × A)} (t d : A)
      → first_arch cache ≡ ok entry
      → platform_edges independent cache ≡ ok edges
      → Memᴰ (t, d) edges ↔ PlatformWaits independent entry cache t d
  platform_edges_iff independent cache entry t d first e =
      let (more, others, whole) = parts_at independent cache entry first e in
      (
        λ m. elim (mem_append-cases (own_edges independent entry.1) (mem_of_eq (sym whole) m)) [
          | inl own ↦ inl ((own_edges_iff independent entry.1 t d).0 own)
          | inr other ↦ inr (other_arches_sound independent entry.0 entry.1 cache t d others other)
        ],
        λ w. mem_of_eq whole (elim w [
          | inl own ↦ mem-append_left more ((own_edges_iff independent entry.1 t d).1 own)
          | inr o ↦ mem-append_right (own_edges independent entry.1) (
              other_arches-complete independent entry.0 entry.1 cache t d o.arch o.tasks others
                o.cached o.other o.waits)
        ]),
      )

  pub platform_edges-total :
      (n : ℕ) (independent : Bool) (cache : List (String × List A))
      → IsRectangular n cache
      → (edges : List (A × A)) × (platform_edges independent cache ≡ ok edges)
  unfolding platform_edges
  platform_edges-total n independent cache (pos, keyed, same) =
      let (entry, is_first) = first_arch-total cache keyed in
      let (more, others) =
        other_arches-total n independent entry.0 entry.1 cache pos
          (mem-of_All (λ (x : String × List A). length x.1 ≡ n) same
            (first_arch-mem cache is_first))
          same in
      elim (Bool-cases (nat_beq (length (keys cache)) 1)) [
        | inl one ↦ (own_edges independent entry.1, rw is_first (rw one))
        | inr several ↦ (own_edges independent entry.1 ++ more, rw is_first (rw (several, others)))
      ]

  -- On caches in which every architecture of a platform has the same number of tasks, at least one,
  -- no index is out of range and every platform has a first architecture.
  pub build_dependency_map-total :
      (independent_tasks : List (String × Bool)) (caches : List (String × List (String × List A)))
      → All (λ entry. (n : ℕ) × IsRectangular n entry.1) caches
      → (edges : List (A × A)) × (build_dependency_map independent_tasks caches ≡ ok edges)
  unfolding build_dependency_map
  build_dependency_map-total independent_tasks [] h = ([], refl)
  build_dependency_map-total independent_tasks ((platform, cache) ∷ caches) ((n, h), hs) =
      let (edges, e) = platform_edges-total n (is_independent independent_tasks platform) cache h in
      let (more, e') = build_dependency_map-total independent_tasks caches hs in
      (edges ++ more, rw (e, e'))

  -- The tasks of a platform are numbered: the task at `i` of the architecture that is built first
  -- has rank 2 i, and the task at `i` of another one has rank 2 i + 1.
  pub record IsRanked (rank : A → ℕ) (cache : List (String × List A)) : Type 0 where
    pub first_ranks :
        (entry : String × List A) (i : ℕ) (x : A)
        → first_arch cache ≡ ok entry
        → get_elem? entry.1 i ≡ some x
        → rank x ≡ 2 * i
    pub other_ranks :
        (entry : String × List A) (arch : String) (tasks : List A) (i : ℕ) (x : A)
        → first_arch cache ≡ ok entry
        → Memᴰ (arch, tasks) cache
        → (arch == entry.0) ≡ false
        → get_elem? tasks i ≡ some x
        → rank x ≡ 2 * i + 1

  Waits-rank :
      {independent : Bool} (rank : A → ℕ) (cache : List (String × List A)) (entry : String × List A)
      (t d : A)
      → IsRanked rank cache
      → first_arch cache ≡ ok entry
      → (o : OtherWaits independent entry.0 entry.1 cache t d)
      → Waits independent entry.1 [] o.tasks t d
      → rank d < rank t
  Waits-rank rank cache entry t d r first o (Waits.same_project i p q) = omega (
    arith,
    r.first_ranks entry i d first q,
    r.other_ranks entry o.arch o.tasks i t first o.cached o.other p,
  )
  Waits-rank rank cache entry t d r first o (Waits.earlier i f p m) =
      let (j, below, q) = mem-take i o.tasks m in
      omega (
        arith,
        below,
        r.other_ranks entry o.arch o.tasks i t first o.cached o.other p,
        r.other_ranks entry o.arch o.tasks j d first o.cached o.other q,
      )

  platform_edges-rank :
      (rank : A → ℕ) (independent : Bool) (cache : List (String × List A)) {edges : List (A × A)}
      (t d : A)
      → IsRanked rank cache
      → platform_edges independent cache ≡ ok edges
      → Memᴰ (t, d) edges
      → rank d < rank t
  platform_edges-rank rank independent cache t d r e m =
      let p = platform_edges-Parts independent cache e in
      let entry : String × List A = (p.first, p.firsts) in
      elim ((platform_edges_iff independent cache entry t d p.is_first e).0 m) [
        | inl (_, (i, later, sooner)) ↦ omega (
          arith,
          r.first_ranks entry (suc i) t p.is_first later,
          r.first_ranks entry i d p.is_first sooner,
        )
        | inr o ↦ Waits-rank rank cache entry t d r p.is_first o o.waits
      ]

  -- Every dependency goes to a task of a smaller rank, so that no tasks wait for each other in a
  -- circle.
  pub build_dependency_map-rank :
      (rank : A → ℕ) (independent_tasks : List (String × Bool))
      (caches : List (String × List (String × List A))) {edges : List (A × A)} (t d : A)
      → All (λ entry. IsRanked rank entry.1) caches
      → build_dependency_map independent_tasks caches ≡ ok edges
      → Memᴰ (t, d) edges
      → rank d < rank t
  unfolding build_dependency_map
  build_dependency_map-rank rank independent_tasks [] t d r e m =
      elim (mem_of_eq (ok-injective e) m) [ ]
  build_dependency_map-rank rank independent_tasks ((platform, cache) ∷ caches) t d r e m =
      let independent = is_independent independent_tasks platform in
      let (edges, here, rest) = >>=-eq-ok (platform_edges independent cache) _ e in
      let (more, there, whole) = >>=-eq-ok (build_dependency_map independent_tasks caches) _ rest in
      elim (mem_append-cases edges (mem_of_eq (ok-injective whole) m)) [
        | inl l ↦ platform_edges-rank rank independent cache t d r.0 here l
        | inr l ↦ build_dependency_map-rank rank independent_tasks caches t d r.1 there l
      ]
