-- ===== src/TestTasks/Complete.antt =====
-- Taking the result of a test: complete_test_task and update_test_task of alws/crud/test.py.
-- Pulp is a parameter. The statistics and the stored answer are left out.
use albs_web_server.Prelude.{
  ℕ, String, Bool, true, false, List, [], ◌∷◌, ◌++◌, map, not, Option, none, some, filter, head?,
  ◌>>◌, raise_if, if◌then◌else◌, ◌==◌, nat_eq, string_eq, ◌||◌, Result, ok, err, Error, ◌>>=◌,
}
use albs_web_server.TestTasks.Db.{
  TestTaskStatus, TestTask, TestTaskArtifact, TestDb, update_test_tasks,
}

-- An entry of the result. Where it is a dictionary, `success` is `item.get('success', False)`, and
-- `tests` has the same of each of its values, which are read of the entry for 'tests' only; a value
-- that is no dictionary is `none` there.
pub record ResultItem : Type 0 where
  pub key : String
  pub is_dictionary : Bool
  pub success : Bool
  pub tests : List (Option Bool)

-- What the test system sends. A log has a name and perhaps an address; `stats` may be missing, and
-- `started_at` within it.
pub record TestTaskResult : Type 0 where
  pub logs : List (String × Option String)
  pub revoked : Bool
  pub items : List ResultItem
  pub stats : Option (Option String)

-- The inner loop, over the tests, which the first one that has failed ends. `get` of what is no
-- dictionary raises AttributeError.
unfoldable pub status_of_tests : TestTaskStatus → List (Option Bool) → Result TestTaskStatus
status_of_tests status [] = ok status
status_of_tests status (none ∷ tests) = err Error.attribute_error
status_of_tests status (some true ∷ tests) = status_of_tests status tests
status_of_tests status (some false ∷ tests) = ok TestTaskStatus.failed

-- `item.values()` and `item.get`, of a dictionary only.
unfoldable pub require_dictionary : ResultItem → Result (Unit {0})
require_dictionary item = raise_if (not item.is_dictionary) Error.attribute_error

-- The loop over the entries, from the status so far. The first entry that has failed ends it, but
-- for 'tests'.
unfoldable pub status_of_items : TestTaskStatus → List ResultItem → Result TestTaskStatus
status_of_items status [] = ok status
status_of_items status (item ∷ items) = elim (item.key == "tests") [
  | true ↦
      require_dictionary item
      >> (status_of_tests status item.tests >>= λ tested. status_of_items tested items)
  | false ↦ elim (item.key == "logs" || item.key == "skipped_tests") [
    | true ↦ status_of_items status items
    | false ↦ require_dictionary item >> (elim item.success [
      | true ↦ status_of_items status items
      | false ↦ ok TestTaskStatus.failed
    ])
  ]
]

unfoldable pub status_of_result : TestTaskResult → Result TestTaskStatus
status_of_result result =
    if result.revoked
    then ok TestTaskStatus.cancelled
    else status_of_items TestTaskStatus.completed result.items

unfoldable pub find_test_task : ℕ → TestDb → Option TestTask
find_test_task task_id db = head? (filter (λ t. t.id == task_id) db.test_tasks)

unfoldable pub update_test_task : ℕ → TestDb → ℕ → TestTaskResult → TestTaskStatus → Result TestDb
update_test_task now db task_id result status = elim result.stats [
  | none ↦ err Error.attribute_error
  | some started_at ↦ ok (
      update_test_tasks (λ t. t.id == task_id)
        (λ t. record t { status = status; started_at = started_at; finished_at = some now }) db)
]

-- `create_file` is `none` and `modify_repository` is `false` where the call raises.
module _ (create_file : String → String → Option String)
    (modify_repository : String → List String → Bool) where
  -- `asyncio.gather` over the logs that have an address.
  unfoldable pub convert_logs : List (String × Option String) → Option (List (String × String))
  convert_logs [] = some []
  convert_logs ((name, none) ∷ logs) = convert_logs logs
  convert_logs ((name, some href) ∷ logs) = elim (create_file name href) [
    | none ↦ none
    | some new_href ↦ elim (convert_logs logs) [
      | none ↦ none
      | some rest ↦ some ((name, new_href) ∷ rest)
    ]
  ]

  -- Whether the logs are put into the repository of the task, if it has one.
  unfoldable pub add_logs : Option TestTask → List String → Bool
  add_logs none new_hrefs = false
  add_logs (some task) new_hrefs = elim task.repository [
    | none ↦ true
    | some href ↦ modify_repository href new_hrefs
  ]

  unfoldable pub log_records : ℕ → List (String × String) → List TestTaskArtifact
  log_records task_id results =
      map (λ r. record { name = r.0; href = r.1; test_task_id = task_id }) results

  -- An exception in the loop over the entries passes through `finally`.
  unfoldable pub complete_test_task : ℕ → TestDb → ℕ → TestTaskResult → Result TestDb
  complete_test_task now db task_id test_result =
      let task = find_test_task task_id db in
      elim (convert_logs test_result.logs) [
        | none ↦ update_test_task now db task_id test_result TestTaskStatus.failed
        | some results ↦ do
          status ←
              (if add_logs task (map (λ r. r.1) results)
                then status_of_result test_result
                else ok TestTaskStatus.failed)
          updated ← update_test_task now db task_id test_result status
          ok (record updated {
            test_artifacts = updated.test_artifacts ++ log_records task_id results;
          })
      ]
