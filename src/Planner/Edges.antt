-- ===== src/Planner/Edges.antt =====
-- Which dependencies build_dependency_map (alws/build_planner.py) adds.
use albs_web_server.Prelude.{
  ℕ, zero, suc, ◌<◌, Bool, true, false, List, [], ◌∷◌, ◌++◌, get_elem?, take, some, length, ok,
  >>=-eq-ok, ◌≡◌, refl, sym, ap, ◌↔◌, ◌⊎◌, inl, inr, Memᴰ, mem_cons-cases, mem_append-cases,
  mem-of_mem_map, mem-map_of_mem, append_assoc, ok-injective, mem-append_left, mem-append_right,
  mem_of_eq, append-nil, some_eq, ◌≤◌, arith,
}
use albs_web_server.Planner.Dependencies.{chain_from, task_edges, arch_loop, arch_edges}

module _ {A : Type 0} where
  abbrev pub Follows : A → List A → A → A → Type 0
  Follows prev tasks t d =
      (i : ℕ) × (get_elem? tasks i ≡ some t) × (get_elem? (prev ∷ tasks) i ≡ some d)

  chain_from_sound :
      (prev : A) (tasks : List A) (t d : A)
      → Memᴰ (t, d) (chain_from prev tasks)
      → Follows prev tasks t d
  unfolding chain_from
  chain_from_sound prev [] t d m = elim m [ ]
  chain_from_sound prev (x ∷ xs) t d m = elim (mem_cons-cases m) [
    | inl e ↦ (0, ap (λ p. some (p.0)) (sym e), ap (λ p. some (p.1)) (sym e))
    | inr r ↦ let (i, p, q) = chain_from_sound x xs t d r in (suc i, p, q)
  ]

  chain_from-complete :
      (prev : A) (tasks : List A) (t d : A)
      → Follows prev tasks t d
      → Memᴰ (t, d) (chain_from prev tasks)
  unfolding chain_from
  chain_from-complete prev [] t d (i, p, q) = cc
  chain_from-complete prev (x ∷ xs) t d (zero, p, q) = Memᴰ.head (cc)
  chain_from-complete prev (x ∷ xs) t d (suc i, p, q) =
      Memᴰ.tail (chain_from-complete x xs t d (i, p, q))

  -- In the first architecture, the task behind another waits for it.
  pub chain_from_iff :
      (prev : A) (tasks : List A) (t d : A)
      → Memᴰ (t, d) (chain_from prev tasks) ↔ Follows prev tasks t d
  chain_from_iff prev tasks t d =
      (chain_from_sound prev tasks t d, chain_from-complete prev tasks t d)

  -- The dependencies of the task at `i` of another architecture: the task at `i` of the first one,
  -- and the tasks before it in its own unless they are independent.
  pub data Waits (independent : Bool) (firsts before tasks : List A) (t d : A) : Type 0 where
    same_project :
        (i : ℕ)
        → get_elem? tasks i ≡ some t
        → get_elem? firsts i ≡ some d
        → Waits independent firsts before tasks t d
    earlier :
        (i : ℕ)
        → independent ≡ false
        → get_elem? tasks i ≡ some t
        → Memᴰ d (before ++ take i tasks)
        → Waits independent firsts before tasks t d

  abbrev TaskWaits : Bool → A → List A → A → A → A → Type 0
  TaskWaits independent first before task t d =
      (t ≡ task) × ((d ≡ first) ⊎ (independent ≡ false) × Memᴰ d before)

  task_edges_sound :
      (independent : Bool) (first : A) (before : List A) (task : A) {t d : A}
      → Memᴰ (t, d) (task_edges independent first before task)
      → TaskWaits independent first before task t d
  unfolding task_edges
  task_edges_sound true first before task m = elim (mem_cons-cases m) [
    | inl e ↦ (ap (λ p. p.0) e, inl (ap (λ p. p.1) e))
    | inr r ↦ elim r [ ]
  ]
  task_edges_sound false first before task m = elim (mem_cons-cases m) [
    | inl e ↦ (ap (λ p. p.0) e, inl (ap (λ p. p.1) e))
    | inr r ↦
        let (b, mb, e) = mem-of_mem_map (λ b. (task, b)) before r in
        (ap (λ p. p.0) e, inr (refl, rw (ap (λ p. p.1) e) mb))
  ]

  task_edges-complete :
      (independent : Bool) (first : A) (before : List A) (task : A) {t d : A}
      → TaskWaits independent first before task t d
      → Memᴰ (t, d) (task_edges independent first before task)
  unfolding task_edges
  task_edges-complete true first before task (e, inl f) = Memᴰ.head (cc)
  task_edges-complete true first before task (e, inr (f, m)) = cc
  task_edges-complete false first before task (e, inl f) = Memᴰ.head (cc)
  task_edges-complete false first before task (e, inr (f, m)) =
      Memᴰ.tail (rw e (mem-map_of_mem (λ b. (task, b)) m))

  shift :
      {independent : Bool} {first : A} {firsts before : List A} {task : A} {tasks : List A}
      {t d : A}
      → Waits independent firsts (before ++ task ∷ []) tasks t d
      → Waits independent (first ∷ firsts) before (task ∷ tasks) t d
  shift (Waits.same_project i p q) = Waits.same_project (suc i) p q
  shift (Waits.earlier i f p m) = Waits.earlier (suc i) f p (rw append_assoc at m)

  head-Waits :
      {independent : Bool} {first : A} {firsts before : List A} {task : A} {tasks : List A}
      {t d : A}
      → TaskWaits independent first before task t d
      → Waits independent (first ∷ firsts) before (task ∷ tasks) t d
  head-Waits (e, inl f) = Waits.same_project 0 (ap some (sym e)) (ap some (sym f))
  head-Waits (e, inr (f, m)) = Waits.earlier 0 f (ap some (sym e)) (mem-append_left [] m)

  unshift :
      {independent : Bool} {first : A} {firsts before : List A} {task : A} {tasks : List A}
      {t d : A}
      → Waits independent (first ∷ firsts) before (task ∷ tasks) t d
      → TaskWaits independent first before task t d
        ⊎ Waits independent firsts (before ++ task ∷ []) tasks t d
  unshift (Waits.same_project zero p q) = inl (sym (some_eq p), inl (sym (some_eq q)))
  unshift (Waits.same_project (suc i) p q) = inr (Waits.same_project i p q)
  unshift (Waits.earlier zero f p m) = inl (sym (some_eq p), inr (f, rw append-nil at m))
  unshift (Waits.earlier (suc i) f p m) = inr (Waits.earlier i f p (rw append_assoc m))

  arch_loop_sound :
      (independent : Bool) (firsts before tasks : List A) {edges : List (A × A)} {t d : A}
      → arch_loop independent firsts before tasks ≡ ok edges
      → Memᴰ (t, d) edges
      → Waits independent firsts before tasks t d
  unfolding arch_loop
  arch_loop_sound independent firsts before [] e m = elim (mem_of_eq (ok-injective e) m) [ ]
  arch_loop_sound independent [] before (task ∷ tasks) e m = cc
  arch_loop_sound independent (first ∷ firsts) before (task ∷ tasks) {edges} {t} {d} e m =
      let (rest, found, whole) =
        >>=-eq-ok (arch_loop independent firsts (before ++ task ∷ []) tasks) _ e in
      elim (mem_append-cases (task_edges independent first before task)
        (mem_of_eq (ok-injective whole) m)) [
          | inl here ↦ head-Waits (task_edges_sound independent first before task here)
          | inr there ↦
              shift (arch_loop_sound independent firsts (before ++ task ∷ []) tasks found there)
        ]

  arch_loop-complete :
      (independent : Bool) (firsts before tasks : List A) {edges : List (A × A)} {t d : A}
      → arch_loop independent firsts before tasks ≡ ok edges
      → Waits independent firsts before tasks t d
      → Memᴰ (t, d) edges
  unfolding arch_loop
  arch_loop-complete independent firsts before [] e (Waits.same_project i p q) = cc
  arch_loop-complete independent firsts before [] e (Waits.earlier i f p m) = cc
  arch_loop-complete independent [] before (task ∷ tasks) e w = cc
  arch_loop-complete independent (first ∷ firsts) before (task ∷ tasks) e w =
      let (rest, found, whole) =
        >>=-eq-ok (arch_loop independent firsts (before ++ task ∷ []) tasks) _ e in
      mem_of_eq (sym (ok-injective whole)) (elim (unshift w) [
        | inl here ↦ mem-append_left rest (task_edges-complete independent first before task here)
        | inr there ↦
            mem-append_right (task_edges independent first before task)
              (arch_loop-complete independent firsts (before ++ task ∷ []) tasks found there)
      ])

  arch_edges-eq-loop :
      (independent : Bool) (firsts tasks : List A) {edges : List (A × A)}
      → arch_edges independent firsts tasks ≡ ok edges
      → arch_loop independent firsts [] tasks ≡ ok edges
  unfolding arch_edges arch_loop task_edges
  arch_edges-eq-loop independent firsts [] e = cc
  arch_edges-eq-loop independent [] (task ∷ tasks) e = cc
  arch_edges-eq-loop true (first ∷ firsts) (task ∷ tasks) e = e
  arch_edges-eq-loop false (first ∷ firsts) (task ∷ tasks) e = e

  -- The edges of an architecture are exactly the pairs of `Waits`.
  pub arch_edges_iff :
      (independent : Bool) (firsts tasks : List A) {edges : List (A × A)} (t d : A)
      → arch_edges independent firsts tasks ≡ ok edges
      → Memᴰ (t, d) edges ↔ Waits independent firsts [] tasks t d
  arch_edges_iff independent firsts tasks t d e =
      let found = arch_edges-eq-loop independent firsts tasks e in
      (
        arch_loop_sound independent firsts [] tasks found,
        arch_loop-complete independent firsts [] tasks found,
      )

  arch_loop-total :
      (independent : Bool) (firsts before tasks : List A)
      → length tasks ≤ length firsts
      → (edges : List (A × A)) × (arch_loop independent firsts before tasks ≡ ok edges)
  unfolding arch_loop
  arch_loop-total independent firsts before [] h = ([], refl)
  arch_loop-total independent [] before (task ∷ tasks) h = absurd (omega arith)
  arch_loop-total independent (first ∷ firsts) before (task ∷ tasks) h =
      let (rest, found) =
        arch_loop-total independent firsts (before ++ task ∷ []) tasks (omega arith) in
      (task_edges independent first before task ++ rest, rw found)

  pub arch_edges-total :
      (independent : Bool) (firsts tasks : List A)
      → 0 < length tasks
      → length tasks ≤ length firsts
      → (edges : List (A × A)) × (arch_edges independent firsts tasks ≡ ok edges)
  unfolding arch_edges
  arch_edges-total independent firsts [] h k = absurd (omega arith)
  arch_edges-total independent [] (task ∷ tasks) h k = absurd (omega arith)
  arch_edges-total independent (first ∷ firsts) (task ∷ tasks) h k =
      let (rest, found) = arch_loop-total independent firsts (task ∷ []) tasks (omega arith) in
      ((task, first) ∷ rest, rw found)

  -- A task is one of the tasks before the one at `i` if it stands at a smaller index.
  pub mem-take :
      (i : ℕ) (tasks : List A) {d : A}
      → Memᴰ d (take i tasks)
      → (j : ℕ) × (j < i) × (get_elem? tasks j ≡ some d)
  mem-take zero tasks m = elim m [ ]
  mem-take (suc i) [] m = elim m [ ]
  mem-take (suc i) (x ∷ xs) m = elim (mem_cons-cases m) [
    | inl e ↦ (0, omega arith, ap some (sym e))
    | inr r ↦ let (j, p, q) = mem-take i xs r in (suc j, omega arith, q)
  ]
