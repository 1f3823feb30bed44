-- ===== src/Planner/Dependencies.antt =====
-- BuildPlanner.build_dependency_map of alws/build_planner.py. A task is an object, of any type `A`
-- here; `current.dependencies.append(previous)` is the edge `(current, previous)` of the result,
-- and the edges stand in the order in which they are added.
use albs_web_server.Prelude.{
  String, Bool, false, List, [], ◌∷◌, ◌++◌, map, none, some, lookup, keys, string_eq, ◌==◌,
  if◌then◌else◌, length, is_empty, nat_eq, Result, ok, err, Error, ◌>>=◌,
}

-- `self._independent_tasks.get(platform_name, False)`.
unfoldable pub is_independent : List (String × Bool) → String → Bool
is_independent independent_tasks platform = elim (lookup platform independent_tasks) [
  | none ↦ false
  | some flag ↦ flag
]

module _ {A : Type 0} where
  -- `for index in range(1, len(first_arch_tasks))`: every task waits for the one before it.
  unfoldable pub chain_from : A → List A → List (A × A)
  chain_from previous [] = []
  chain_from previous (current ∷ rest) = (current, previous) ∷ chain_from current rest

  unfoldable pub chain : List A → List (A × A)
  unfolding chain_from
  chain [] = []
  chain (task ∷ tasks) = chain_from task tasks

  -- One round of the inner loop: the edges of the task at `index`, of which `previous_tasks` is
  -- `tasks[:index]`.
  unfoldable pub task_edges : Bool → A → List A → A → List (A × A)
  task_edges independent first_arch_task previous_tasks current_task =
      if independent
      then (current_task, first_arch_task) ∷ []
      else (current_task, first_arch_task) ∷ map (λ task. (current_task, task)) previous_tasks

  -- `for index in range(1, len(tasks))`, over what is left of both lists. `first_arch_tasks[index]`
  -- raises IndexError where the first architecture has fewer tasks.
  unfoldable pub arch_loop : Bool → List A → List A → List A → Result (List (A × A))
  arch_loop independent first_arch_tasks previous_tasks [] = ok []
  arch_loop independent [] previous_tasks (task ∷ tasks) = err Error.index_error
  arch_loop independent (first_arch_task ∷ firsts) previous_tasks (task ∷ tasks) = do
    rest ← arch_loop independent firsts (previous_tasks ++ task ∷ []) tasks
    ok (task_edges independent first_arch_task previous_tasks task ++ rest)

  -- The edges of an architecture that is not the first: `tasks[0]` waits for `first_arch_tasks[0]`,
  -- and then the loop.
  unfoldable pub arch_edges : Bool → List A → List A → Result (List (A × A))
  arch_edges independent first_arch_tasks [] = err Error.index_error
  arch_edges independent [] (task ∷ tasks) = err Error.index_error
  arch_edges independent (first_arch_task ∷ firsts) (task ∷ tasks) = do
    rest ← arch_loop independent firsts (task ∷ []) tasks
    ok ((task, first_arch_task) ∷ rest)

  -- `next(iter(platform_task_cache))`, with its tasks; of no keys, StopIteration.
  unfoldable pub any_arch : List (String × List A) → Result (String × List A)
  any_arch [] = err Error.stop_iteration
  any_arch (entry ∷ _) = ok entry

  -- The architecture that is built first, with its tasks: 'src' if it has tasks, or the first key.
  unfoldable pub first_arch : List (String × List A) → Result (String × List A)
  first_arch cache = elim (lookup "src" cache) [
    | none ↦ any_arch cache
    | some tasks ↦ if is_empty tasks then any_arch cache else ok ("src", tasks)
  ]

  -- The loop over the other architectures.
  unfoldable pub other_arches :
      Bool → String → List A → List (String × List A) → Result (List (A × A))
  other_arches independent first first_arch_tasks [] = ok []
  other_arches independent first first_arch_tasks ((arch, tasks) ∷ cache) =
      let rest = other_arches independent first first_arch_tasks cache in
      if arch == first
      then rest
      else do edges ← arch_edges independent first_arch_tasks tasks; more ← rest; ok (edges ++ more)

  -- One round of the outer loop: a platform.
  unfoldable pub platform_edges : Bool → List (String × List A) → Result (List (A × A))
  platform_edges independent cache = do
    entry ← first_arch cache
    let first_arch_tasks = entry.1
    let own = if independent then [] else chain first_arch_tasks
    if length (keys cache) == 1
        then ok own
        else do more ← other_arches independent entry.0 first_arch_tasks cache; ok (own ++ more)

  unfoldable pub build_dependency_map :
      List (String × Bool) → List (String × List (String × List A)) → Result (List (A × A))
  build_dependency_map independent_tasks [] = ok []
  build_dependency_map independent_tasks ((platform, cache) ∷ caches) = do
    edges ← platform_edges (is_independent independent_tasks platform) cache
    more ← build_dependency_map independent_tasks caches
    ok (edges ++ more)
