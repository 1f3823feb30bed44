-- ===== src/TestTasks/Verdict.antt =====
-- Which status a test gets from its result (complete_test_task of alws/crud/test.py).
use albs_web_server.Prelude.{
  ℕ, String, Bool, false, not, List, [], ◌∷◌, map, Option, none, some, all, if◌then◌else◌, ◌==◌,
  nat_eq, string_eq, ◌||◌, ◌&&◌, ok, ok-injective, >>=-eq-ok, >>-returns, true, ◌≡◌, refl, sym, ap,
  ◌∙◌, inl, inr, Memᴰ, Bool-cases, Option-cases, mem_of_eq, nat_beq_iff,
}
use albs_web_server.TestTasks.Db.{TestTaskStatus, test_status_eq, TestTask, TestDb}
use albs_web_server.TestTasks.Batch.{mem-update_test_tasks}
use albs_web_server.TestTasks.Complete.{
  ResultItem, TestTaskResult, status_of_tests, require_dictionary, status_of_items,
  status_of_result, find_test_task, update_test_task, convert_logs, add_logs, complete_test_task,
}

abbrev pub has_passed : Option Bool → Bool
has_passed none = false
has_passed (some success) = success

-- An entry that lets the test pass.
unfoldable pub passes : ResultItem → Bool
passes item =
    if item.key == "tests"
    then all has_passed item.tests
    else item.key == "logs" || (item.key == "skipped_tests" || item.success)

status_of_tests-passed :
    (status : TestTaskStatus) (tests : List (Option Bool)) {tested : TestTaskStatus}
    → status_of_tests status tests ≡ ok tested
    → tested ≡ (if all has_passed tests then status else TestTaskStatus.failed)
unfolding status_of_tests
status_of_tests-passed status [] e = sym (ok-injective e)
status_of_tests-passed status (none ∷ tests) e = cc
status_of_tests-passed status (some true ∷ tests) e = status_of_tests-passed status tests e
status_of_tests-passed status (some false ∷ tests) e = sym (ok-injective e)

passes-tests :
    (item : ResultItem) → (item.key == "tests") ≡ true → passes item ≡ all has_passed item.tests
unfolding passes
passes-tests item tests = rw (tests, passes)

passes-skipped :
    (item : ResultItem)
    → (item.key == "tests") ≡ false
    → (item.key == "logs" || item.key == "skipped_tests") ≡ true
    → passes item ≡ true
unfolding passes
passes-skipped item other skipped = elim (Bool-cases (item.key == "logs")) [
  | inl logs ↦ simp (other, logs)
  | inr other' ↦
      let is_skipped : (item.key == "skipped_tests") ≡ true = rw other' at skipped in
      simp (other, other', is_skipped)
]

passes-success :
    (item : ResultItem)
    → (item.key == "tests") ≡ false
    → (item.key == "logs" || item.key == "skipped_tests") ≡ false
    → passes item ≡ item.success
unfolding passes
passes-success item other other' = elim (Bool-cases (item.key == "logs")) [
  | inl logs ↦ cc (rw logs at other')
  | inr no_logs ↦
      let not_skipped : (item.key == "skipped_tests") ≡ false = rw no_logs at other' in
      simp (other, no_logs, not_skipped)
]

-- What passes an entry and then the others.
both_pass :
    (status : TestTaskStatus) (here there : Bool) {tested final : TestTaskStatus}
    → tested ≡ (if here then status else TestTaskStatus.failed)
    → final ≡ (if there then tested else TestTaskStatus.failed)
    → final ≡ (if here && there then status else TestTaskStatus.failed)
both_pass status true true now later = later ∙ now
both_pass status true false now later = later
both_pass status false true now later = later ∙ now
both_pass status false false now later = later

status_of_items-passes :
    (status : TestTaskStatus) (items : List ResultItem) {final : TestTaskStatus}
    → status_of_items status items ≡ ok final
    → final ≡ (if all passes items then status else TestTaskStatus.failed)
unfolding status_of_items
status_of_items-passes status [] e = sym (ok-injective e)
status_of_items-passes status (item ∷ items) {final} e = elim (Bool-cases (item.key == "tests")) [
  | inl tests ↦
      let e1 = >>-returns (require_dictionary item) _ (rw (tests, status_of_items) at e) in
      let (tested, one, rest) = >>=-eq-ok (status_of_tests status item.tests) _ e1 in
      both_pass status (passes item) (all passes items)
        (rw (passes-tests item tests) (status_of_tests-passed status item.tests one))
        (status_of_items-passes tested items rest)
  | inr other ↦ elim (Bool-cases (item.key == "logs" || item.key == "skipped_tests")) [
    | inl skipped ↦
        both_pass status (passes item) (all passes items)
          (rw (passes-skipped item other skipped) refl)
          (status_of_items-passes status items (rw (other, skipped, status_of_items) at e))
    | inr other' ↦
        let e1 =
          >>-returns (require_dictionary item) _ (rw (other, other', status_of_items) at e) in
        elim (Bool-cases item.success) [
          | inl good ↦
              both_pass status (passes item) (all passes items)
                (rw (passes-success item other other', good) refl)
                (status_of_items-passes status items (rw good at e1))
          | inr bad ↦
              sym (ok-injective (rw bad at e1)) ∙ rw (passes-success item other other', bad) refl
        ]
  ]
]

updated_status :
    (now : ℕ) (db : TestDb) (task_id : ℕ) (result : TestTaskResult) (status : TestTaskStatus)
    {db' : TestDb} (row : TestTask)
    → update_test_task now db task_id result status ≡ ok db'
    → Memᴰ row db'.test_tasks
    → row.id ≡ task_id
    → row.status ≡ status
unfolding update_test_task
updated_status now db task_id result status row e m id = elim (Option-cases result.stats) [
  | inl missing ↦ cc (rw (missing, update_test_task) at e)
  | inr (started_at, found) ↦
      let whole = ok-injective (rw (found, update_test_task) at e) in
      let values = λ (t : TestTask). record t {
        status = status;
        started_at = started_at;
        finished_at = some now;
      } in
      let (s, _, origin) =
        mem-update_test_tasks (λ t. t.id == task_id) values db
          (mem_of_eq (ap (λ (d : TestDb). d.test_tasks) whole) m) in
      elim origin [
        | inl (_, is_new) ↦ ap (λ (t : TestTask). t.status) is_new
        | inr (other, same) ↦
            let s_id : s.id ≡ task_id = sym (ap (λ (t : TestTask). t.id) same) ∙ id in
            cc (other, (nat_beq_iff s.id task_id).1 s_id)
      ]
]

module _ (create_file : String → String → Option String)
    (modify_repository : String → List String → Bool) where
  -- Whether Pulp takes the logs.
  unfoldable pub stores_logs : TestDb → ℕ → TestTaskResult → Bool
  stores_logs db task_id result = elim (convert_logs create_file modify_repository result.logs) [
    | none ↦ false
    | some results ↦
        add_logs create_file modify_repository (find_test_task task_id db) (map (λ r. r.1) results)
  ]

  unfoldable pub verdict : TestDb → ℕ → TestTaskResult → TestTaskStatus
  verdict db task_id result =
      if not (stores_logs db task_id result)
      then TestTaskStatus.failed
      else if result.revoked
      then TestTaskStatus.cancelled
      else if all passes result.items
      then TestTaskStatus.completed
      else TestTaskStatus.failed

  -- When the result of a test is taken, the test is cancelled if it was revoked, completed if every
  -- entry of the result passes, and failed otherwise, but failed in any case if Pulp does not take
  -- the logs.
  pub complete_test_task-verdict :
      (now : ℕ) (db : TestDb) (task_id : ℕ) (result : TestTaskResult) {db' : TestDb}
      (row : TestTask)
      → complete_test_task create_file modify_repository now db task_id result ≡ ok db'
      → Memᴰ row db'.test_tasks
      → row.id ≡ task_id
      → row.status ≡ verdict db task_id result
  unfolding complete_test_task verdict stores_logs status_of_result
  complete_test_task-verdict now db task_id result row e m id =
      elim (Option-cases (convert_logs create_file modify_repository result.logs)) [
        | inl refused ↦
            rw (refused, verdict, stores_logs)
              (updated_status now db task_id result TestTaskStatus.failed row
                (rw (refused, complete_test_task) at e) m id)
        | inr (results, converted) ↦
            let (status, given, rest) =
              >>=-eq-ok
                (if add_logs create_file modify_repository (find_test_task task_id db)
                    (map (λ r. r.1) results)
                  then status_of_result result
                  else ok TestTaskStatus.failed)
                _ (rw (converted, complete_test_task) at e) in
            let (db'', updated, whole) =
              >>=-eq-ok (update_test_task now db task_id result status) _ rest in
            let stored =
              updated_status now db task_id result status row updated
                (mem_of_eq (ap (λ (d : TestDb). d.test_tasks) (ok-injective whole)) m) id in
            stored
            ∙ elim (Bool-cases (
                add_logs create_file modify_repository (find_test_task task_id db)
                  (map (λ r. r.1) results))) [
                    | inr refused ↦
                        rw (converted, refused, verdict, stores_logs)
                          (sym (ok-injective (rw refused at given)))
                    | inl taken ↦ elim (Bool-cases result.revoked) [
                      | inl revoked ↦
                          rw (converted, taken, revoked, verdict, stores_logs)
                            (sym (ok-injective (rw (taken, revoked, status_of_result) at given)))
                      | inr kept ↦
                          rw (converted, taken, kept, verdict, stores_logs)
                            (status_of_items-passes TestTaskStatus.completed result.items
                              (rw (taken, kept, status_of_result) at given))
                    ]
                  ]
      ]
