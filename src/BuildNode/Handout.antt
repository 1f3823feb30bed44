-- ===== src/BuildNode/Handout.antt =====
-- Which task get_available_build_task (alws/crud/build_node.py) hands out, and to whom.
use mathlib.Core.Bool.{false≢true}
use albs_web_server.Prelude.{
  ℕ, ◌<◌, ◌≤◌, String, Bool, true, false, List, [], ◌∷◌, none, some, filter, contains,
  if◌then◌else◌, ◌==◌, nat_eq, string_eq, not, ltb, leb, ◌≡◌, refl, sym, ap, ◌↔◌, ◌∙◌, inl, inr,
  Memᴰ, mem_cons-cases, mem-of_mem_filter, mem-filter_of_mem, Bool-cases, Option-cases, arith,
  some_eq, mem_of_eq, leb→le, leb→gt, ltb→lt, and_parts, not-true,
}
use albs_web_server.Constants.Statuses.{BuildTaskStatus, value}
use albs_web_server.BuildNode.Db.{BuildTask, Db, update_where, has_dependencies}
use albs_web_server.BuildNode.Available.{
  RequestTask, is_expired, first_by_id, is_excluded, is_eligible, get_available_build_task,
}

ids : {a b : BuildTask} → a ≡ b → a.id ≡ b.id
ids e = ap (λ (t : BuildTask). t.id) e

first_by_id-none : (ts : List BuildTask) → first_by_id ts ≡ none → ts ≡ []
unfolding first_by_id
first_by_id-none [] e = refl
first_by_id-none (t ∷ ts) e = elim (Option-cases (first_by_id ts)) [
  | inl nothing ↦ cc
  | inr (s, found) ↦ ground arith
]

first_by_id-some :
    (ts : List BuildTask) {t : BuildTask}
    → first_by_id ts ≡ some t
    → Memᴰ t ts × ((s : BuildTask) → Memᴰ s ts → t.id ≤ s.id)
unfolding first_by_id
first_by_id-some [] e = cc
first_by_id-some (x ∷ xs) {t} e = elim (Option-cases (first_by_id xs)) [
  | inl nothing ↦ alone (first_by_id-none xs nothing) (some_eq (rw (nothing, first_by_id) at e))
  | inr (y, found) ↦ compared y (first_by_id-some xs found) (rw (found, first_by_id) at e)
]
  where
    alone : xs ≡ [] → x ≡ t → Memᴰ t (x ∷ xs) × ((s : BuildTask) → Memᴰ s (x ∷ xs) → t.id ≤ s.id)
    alone empty same = (
      Memᴰ.head (sym same),
      λ s m. elim (mem_cons-cases m) [
        | inl e' ↦ omega (arith, ids e', ids same)
        | inr r ↦ elim (mem_of_eq (sym empty) r) [ ]
      ],
    )

    compared :
        (y : BuildTask)
        → Memᴰ y xs × ((s : BuildTask) → Memᴰ s xs → y.id ≤ s.id)
        → (if leb x.id y.id then some x else some y) ≡ some t
        → Memᴰ t (x ∷ xs) × ((s : BuildTask) → Memᴰ s (x ∷ xs) → t.id ≤ s.id)
    compared y (m, least) e' = elim (Bool-cases (leb x.id y.id)) [
      | inl le ↦
          let same : x ≡ t = some_eq (rw le at e') in
          (
            Memᴰ.head (sym same),
            λ s r. elim (mem_cons-cases r) [
              | inl q ↦ omega (arith, ids q, ids same)
              | inr r' ↦ omega (arith, ids same, least s r', leb→le x.id y.id le)
            ],
          )
      | inr gt ↦
          let same : y ≡ t = some_eq (rw gt at e') in
          (
            Memᴰ.tail (rw (← same) m),
            λ s r. elim (mem_cons-cases r) [
              | inl q ↦ omega (arith, ids q, ids same, leb→gt x.id y.id gt)
              | inr r' ↦ omega (arith, ids same, least s r')
            ],
          )
    ]

module _ (ilike : String → String → Bool) where
  -- What a handed out row is: that of the eligible task with the least identifier, started now.
  pub record HandedOut (db : Db) (request : RequestTask) (now : ℕ) (task : BuildTask) (db' : Db)
      : Type 0 where
    pub row : BuildTask
    pub stored : Memᴰ row db.tasks
    pub eligible : is_eligible ilike db request now row ≡ true
    pub least :
        (s : BuildTask)
        → Memᴰ s db.tasks
        → is_eligible ilike db request now s ≡ true
        → row.id ≤ s.id
    pub started : task ≡ record row { ts = some now; status = BuildTaskStatus.started }
    pub updated :
        db'
        ≡ update_where
            (λ t. t.id == row.id)
            (λ t. record t { ts = some now; status = BuildTaskStatus.started })
            db

  -- A task that is handed out is that of the eligible row with the least identifier, and the tables
  -- differ afterwards in that row alone, which is started now.
  pub get_available_build_task-HandedOut :
      (db : Db) (request : RequestTask) (now : ℕ) (task : BuildTask)
      → (get_available_build_task ilike db request now).0 ≡ some task
      → HandedOut db request now task (get_available_build_task ilike db request now).1
  unfolding get_available_build_task
  get_available_build_task-HandedOut db request now task e =
      elim (Option-cases (first_by_id (filter (is_eligible ilike db request now) db.tasks))) [
        | inl nothing ↦ cc
        | inr (row, found) ↦
            let (m, least) =
              first_by_id-some (filter (is_eligible ilike db request now) db.tasks) found in
            let (stored, eligible) =
              mem-of_mem_filter (is_eligible ilike db request now) db.tasks m in
            record {
              row = row;
              stored = stored;
              eligible = eligible;
              least = λ s r t. least s (mem-filter_of_mem (is_eligible ilike db request now) r t);
              started = sym (some_eq (rw (found, get_available_build_task) at e));
              updated = rw (found, get_available_build_task);
            }
      ]

  -- A build node gets no task exactly if no row is eligible for its request.
  pub get_available_build_task-none :
      (db : Db) (request : RequestTask) (now : ℕ)
      → ((get_available_build_task ilike db request now).0 ≡ none)
        ↔ ((s : BuildTask) → Memᴰ s db.tasks → is_eligible ilike db request now s ≡ false)
  unfolding get_available_build_task
  get_available_build_task-none db request now = (
    λ e s m. elim (Bool-cases (is_eligible ilike db request now s)) [
      | inr no' ↦ no'
      | inl yes' ↦
          elim (Option-cases (first_by_id (filter (is_eligible ilike db request now) db.tasks))) [
            | inl nothing ↦
                elim (mem_of_eq
                  (sym
                    (first_by_id-none (filter (is_eligible ilike db request now) db.tasks) nothing))
                  (mem-filter_of_mem (is_eligible ilike db request now) m yes')) [ ]
            | inr (row, found) ↦ cc (rw (found, get_available_build_task) at e)
          ]
    ],
    λ never.
        elim (Option-cases (first_by_id (filter (is_eligible ilike db request now) db.tasks))) [
          | inl nothing ↦ rw (nothing, get_available_build_task)
          | inr (row, found) ↦
              let (m, _) =
                first_by_id-some (filter (is_eligible ilike db request now) db.tasks) found in
              let (stored, eligible) =
                mem-of_mem_filter (is_eligible ilike db request now) db.tasks m in
              absurd (false≢true (sym (never row stored) ∙ eligible))
        ],
  )

  -- What an eligible task is.
  pub record IsEligible (db : Db) (request : RequestTask) (now : ℕ) (task : BuildTask)
      : Type 0 where
    pub ready : has_dependencies db task ≡ false
    pub unfinished : value task.status < 2
    pub supported : contains request.supported_arches task.arch ≡ true
    pub expired : is_expired now task.ts ≡ true
    pub included : is_excluded ilike request.excluded_packages task ≡ false

  pub is_eligible-IsEligible :
      (db : Db) (request : RequestTask) (now : ℕ) (task : BuildTask)
      → is_eligible ilike db request now task ≡ true
      → IsEligible db request now task
  unfolding is_eligible
  is_eligible-IsEligible db request now task e =
      let (ready, e₁) = and_parts (not (has_dependencies db task)) _ e in
      let (unfinished, e₂) = and_parts (ltb (value task.status) 2) _ e₁ in
      let (supported, e₃) = and_parts (contains request.supported_arches task.arch) _ e₂ in
      let (expired, included) = and_parts (is_expired now task.ts) _ e₃ in
      record {
        ready = not-true _ ready;
        unfinished = ltb→lt _ _ unfinished;
        supported = supported;
        expired = expired;
        included = not-true _ included;
      }
