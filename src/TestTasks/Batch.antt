-- ===== src/TestTasks/Batch.antt =====
-- Which tests get_available_test_tasks (alws/crud/test.py) sends to the test system.
use albs_web_server.Prelude.{
  ℕ, suc, ◌≤◌, Bool, true, false, List, [], ◌∷◌, map, some, filter, length, take, contains,
  contains_iff, if◌then◌else◌, nat_eq, ◌≡◌, refl, sym, ap, ◌∙◌, ◌⊎◌, inl, inr, Memᴰ,
  mem-of_mem_filter, mem-filter_of_mem, mem-of_mem_map, mem-map_of_mem, Bool-cases, arith,
}
use mathlib.Core.Bool.{false≢true}
use albs_web_server.TestTasks.Db.{
  TestTaskStatus, test_status_eq, TestTask, TestDb, order_by_id, is_created, update_test_tasks,
  get_available_test_tasks,
}
use albs_web_server.TestTasks.Ordered.{
  order_by_id-IsOrdered, mem-order_by_id, order_by_id-mem, length-take-le, mem-of_take, left_out,
}

-- What a batch is: at most ten rows that nobody had sent, started now. A row that nobody has sent
-- is left for later only behind ten others of smaller identifiers. The rows of the batch are
-- started in the tables too, and the others are as they were.
pub record IsBatch (now : ℕ) (db db' : TestDb) (batch : List TestTask) : Type 0 where
  pub bounded : length batch ≤ 10
  pub origin :
      (t : TestTask)
      → Memᴰ t batch
      → (row : TestTask) × Memᴰ row db.test_tasks
        × (is_created row ≡ true)
        × (t ≡ record row { status = TestTaskStatus.started; scheduled_at = some now })
  pub next_ones :
      (row : TestTask)
      → Memᴰ row db.test_tasks
      → is_created row ≡ true
      → contains (map (λ t. t.id) batch) row.id ≡ false
      → (length batch ≡ 10) × ((t : TestTask) → Memᴰ t batch → t.id ≤ row.id)
  pub stored :
      (row : TestTask)
      → Memᴰ row db'.test_tasks
      → (contains (map (λ t. t.id) batch) row.id ≡ true)
          × (row.status ≡ TestTaskStatus.started)
          × (row.scheduled_at ≡ some now)
        ⊎ (contains (map (λ t. t.id) batch) row.id ≡ false) × Memᴰ row db.test_tasks

length-map {ℓ κ} :
    {A : Type ℓ} {B : Type κ} (f : A → B) (xs : List A) → length (map f xs) ≡ length xs
length-map f [] = refl
length-map f (x ∷ xs) = ap suc (length-map f xs)

-- Where a row of the updated table comes from.
pub mem-update_test_tasks :
    (test : TestTask → Bool) (values : TestTask → TestTask) (db : TestDb) {t : TestTask}
    → Memᴰ t (update_test_tasks test values db).test_tasks
    → (s : TestTask) × Memᴰ s db.test_tasks
      × ((test s ≡ true) × (t ≡ values s) ⊎ (test s ≡ false) × (t ≡ s))
unfolding update_test_tasks
mem-update_test_tasks test values db m =
    let (s, row, e) = mem-of_mem_map (λ s. if test s then values s else s) db.test_tasks m in
    (
      s,
      row,
      elim (Bool-cases (test s)) [
        | inl yes' ↦ inl (yes', rw yes' at e)
        | inr no' ↦ inr (no', rw no' at e)
      ],
    )

same_ids :
    (f : TestTask → TestTask) (ts : List TestTask)
    → ((t : TestTask) → (f t).id ≡ t.id)
    → map (λ t. t.id) (map f ts) ≡ map (λ t. t.id) ts
same_ids f [] same = refl
same_ids f (t ∷ ts) same = λ i. same t i ∷ same_ids f ts same i

-- What get_available_test_tasks hands out is a batch: at most ten tests that were created and not
-- sent, started now, and no test is left for later but behind ten with identifiers that are not
-- greater.
pub get_available_test_tasks-IsBatch :
    (now : ℕ) (db : TestDb)
    → IsBatch now db (get_available_test_tasks now db).1 (get_available_test_tasks now db).0
unfolding get_available_test_tasks
get_available_test_tasks-IsBatch now db =
    let waiting = filter is_created db.test_tasks in
    let tasks = take 10 (order_by_id waiting) in
    let start =
      λ (t : TestTask). record t { status = TestTaskStatus.started; scheduled_at = some now } in
    let same_length : length (map start tasks) ≡ length tasks = length-map start tasks in
    record {
      bounded = omega (arith, same_length, length-take-le 10 (order_by_id waiting));
      origin = λ t m.
          let (row, among, e) = mem-of_mem_map start tasks m in
          let (stored, fresh) =
            mem-of_mem_filter is_created db.test_tasks
              (mem-order_by_id waiting (mem-of_take 10 (order_by_id waiting) among)) in
          (row, stored, fresh, e);
      next_ones = λ row m fresh out.
          let not_taken : ¬ Memᴰ row tasks = (λ k. absurd (
            false≢true (
              sym out
              ∙ (contains_iff (map (λ t. t.id) (map start tasks)) row.id).1
                  (mem-map_of_mem (λ (t : TestTask). t.id) (mem-map_of_mem start k))))) in
          let (full, below) =
            left_out 10 (order_by_id waiting) row (order_by_id-IsOrdered waiting)
              (order_by_id-mem waiting (mem-filter_of_mem is_created m fresh)) not_taken in
          (
            same_length ∙ full,
            λ t k.
                let (s, among, e) = mem-of_mem_map start tasks k in
                omega (arith, below s among, ap (λ (b : TestTask). b.id) e),
          );
      stored = λ row m.
          let ids = same_ids start tasks (λ t. refl) in
          let (s, before, c) =
            mem-update_test_tasks (λ t. contains (map (λ b. b.id) tasks) t.id) start db m in
          elim c [
            | inl (among, e) ↦ inl (
              rw (ids, ap (λ (b : TestTask). b.id) e) among,
              ap (λ (b : TestTask). b.status) e,
              ap (λ (b : TestTask). b.scheduled_at) e,
            )
            | inr (out, e) ↦ inr (rw (ids, ap (λ (b : TestTask). b.id) e) out, rw e before)
          ];
    }
