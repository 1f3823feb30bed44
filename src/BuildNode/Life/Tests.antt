-- ===== src/BuildNode/Life/Tests.antt =====
-- A build of a source task and of a task for x86_64 that waits for it, from its start to the second
-- task.
use albs_web_server.Prelude.{
  List, [], ◌∷◌, zero, suc, ◌-◌, ◌*◌, ◌+◌, get_elem?, some_eq, ok-injective, ◌∙◌, lookup, ℕ, String,
  Bool, true, false, none, some, Option, is_set, Result, ok, err, ◌≡◌, ◌≢◌, refl, sym, Memᴰ,
  mem_cons-cases, inl, inr, ap, arith, concat, string_eq,
}
use albs_web_server.Constants.Statuses.{BuildTaskStatus, value, is_finished, get_status_by_text}
use albs_web_server.BuildNode.Db.{
  BuildTask, Db, update_where, remove_dependencies_on, find_task, has_dependencies,
}
use albs_web_server.BuildNode.Available.{
  RequestTask, is_expired, is_excluded, first_by_id, is_eligible, get_available_build_task,
}
use albs_web_server.BuildNode.Done.{
  Host, BuildDone, ids_of, uncompleted_tasks_ids, get_srpm_artifact_by_build_task_id,
  update_built_srpm_url, share_srpm, srpm_url_of, is_none, finish_report, safe_build_done,
}
use albs_web_server.BuildNode.Process.{
  Services, verify_checksums, get_rpm_repo, route_src, route, create_entities, process_group,
  process_rpms, process_logs, get_srpm_name, rpm_repositories, log_repository, multilib_step,
  update_multilib_repos, run_step, new_artifact, process_build_task_artifacts,
}
use albs_web_server.Noarch.{save_noarch_packages}
use albs_web_server.BuildNode.Built.{
  get_srpm_instance, add_source, add_row, add_rows, write_rows, set_status, updates_pass, is_in_url,
  after_artifacts, build_done,
}
use albs_web_server.BuildNode.Life.{World, report_done, Step, Reach, IsSound}
use albs_web_server.BuildNode.Life.Sound.{Reach-IsSound}
use albs_web_server.BuildNode.Life.Closed.{report_done-never_again}
use albs_web_server.BuildNode.Life.Recent.{get_available_build_task-once}
use albs_web_server.BuildNode.Life.Planned.{IsPlanned, build_dependency_map-progress}
use albs_web_server.Planner.Dependencies.{
  chain, task_edges, arch_loop, arch_edges, first_arch, other_arches, platform_edges,
  is_independent, build_dependency_map,
}
use albs_web_server.Planner.Order.{IsRanked}
use mathlib.Core.Bool.{false≢true}
use albs_web_server.BuildNode.Life.Work.{Serves, get_available_build_task-progress}

abbrev task : ℕ → String → BuildTask
task id arch = record {
  id = id;
  ts = none;
  build_id = 1;
  platform_id = 5;
  platform_name = "AlmaLinux-9";
  ref_id = 1;
  ref_url = "https://git/rpms/bash";
  status = BuildTaskStatus.idle;
  index = 0;
  arch = arch;
  built_srpm_url = none;
  error = none;
  alma_commit_cas_hash = none;
  is_cas_authenticated = false;
  started_at = none;
  finished_at = none;
}

abbrev fresh : Db
fresh = record {
  tasks = task 10 "src" ∷ task 11 "x86_64" ∷ [];
  dependencies = (11, 10) ∷ [];
  artifacts = [];
  repos =
      (record {
        build_id = 1;
        arch = "src";
        platform_id = 5;
        type = "rpm";
        debug = false;
        pulp_href = "/repositories/1/";
      })
      ∷ [];
  source_rpms = [];
  binary_rpms = [];
}

-- A Pulp that takes every file, and services that are not asked.
abbrev services : Services
services = record {
  create_entity = λ artifact. some (artifact.href, artifact.sha256);
  modify_repository = λ repository files. true;
  last_component = λ address. address;
  is_in = λ part text. false;
  is_debuginfo_rpm = λ name. false;
  pulp_name = λ address. none;
  use_beholder = false;
  beholder = λ t name. [];
}

abbrev host : Host
host = record { first_lower = λ s. s; str = λ n. "1"; like_src_rpm = λ name. true }

abbrev world : World
world = record {
  ilike = λ url project. false;
  host = host;
  services = services;
  is_src_rpm = λ name. true;
  load_modules = λ db t. ok tt;
  update_modules = λ db t. ok tt;
}

abbrev any_arch : RequestTask
any_arch = record { supported_arches = "src" ∷ "x86_64" ∷ []; excluded_packages = [] }

abbrev report : BuildDone
report = record {
  task_id = 10;
  status = "done";
  artifacts =
      (record {
        name = "bash-5.1-1.el9.src.rpm";
        type = "rpm";
        href = "/artifacts/1/";
        sha256 = "51c0";
        cas_hash = none;
        arch = "src";
        is_debuginfo = false;
      })
      ∷ [];
  alma_commit_cas_hash = none;
  is_cas_authenticated = false;
  start_ts = some 5000;
}

abbrev after_hand_out : Db
after_hand_out = (get_available_build_task world.ilike fresh any_arch 5000).1

abbrev tables : Result (Bool × Db) → Db
tables (ok (success, db)) = db
tables (err e) = fresh

abbrev after_report : Db
after_report = tables (report_done world 6000 "" after_hand_out report)

abbrev first_taken : BuildTask
first_taken = record (task 10 "src") { ts = some 5000; status = BuildTaskStatus.started }

queue : Unit {0}
unfolding get_available_build_task is_eligible is_expired is_excluded has_dependencies value
    first_by_id update_where report_done safe_build_done build_done process_build_task_artifacts
    find_task run_step get_srpm_name process_logs log_repository process_rpms rpm_repositories
    get_rpm_repo route route_src process_group create_entities verify_checksums multilib_step
    update_multilib_repos new_artifact after_artifacts set_status get_status_by_text
    save_noarch_packages updates_pass add_rows add_row get_srpm_instance add_source write_rows
    is_in_url finish_report update_built_srpm_url uncompleted_tasks_ids is_finished ids_of
    get_srpm_artifact_by_build_task_id is_set is_none share_srpm srpm_url_of remove_dependencies_on
    concat
queue = tt

handed_out :
    get_available_build_task world.ilike fresh any_arch 5000 ≡ (some first_taken, after_hand_out)
unfolding queue
handed_out = refl

reported : report_done world 6000 "" after_hand_out report ≡ ok (true, after_report)
unfolding queue
reported = refl

second_waits_no_longer : after_report.dependencies ≡ []
unfolding queue
second_waits_no_longer = refl

abbrev rank : ℕ → ℕ
rank n = n

edge : {a d : ℕ} → Memᴰ (a, d) fresh.dependencies → (a ≡ 11) × (d ≡ 10)
edge m = elim (mem_cons-cases m) [
  | inl e ↦ (ap (λ (p : ℕ × ℕ). p.0) e, ap (λ (p : ℕ × ℕ). p.1) e)
  | inr r ↦ elim r [ ]
]

fresh-IsSound : IsSound rank fresh
unfolding is_finished
fresh-IsSound = record {
  descends = λ a d m. let (above, below) = edge m in omega arith;
  waits_idle = λ d t m tm is_open. elim (mem_cons-cases tm) [
    | inl e ↦ ap (λ (r : BuildTask). r.status) e
    | inr r ↦ elim (mem_cons-cases r) [
      | inl e ↦ ap (λ (s : BuildTask). s.status) e
      | inr n ↦ elim n [ ]
    ]
  ];
  waits_for_open = λ d t m tm is_open.
      let (above, below) = edge m in
      (
        task 10 "src",
        Memᴰ.head refl,
        sym below,
        elim (mem_cons-cases tm) [
          | inl e ↦ sym (ap (λ (r : BuildTask). r.build_id) e)
          | inr r ↦ elim (mem_cons-cases r) [
            | inl e ↦ sym (ap (λ (s : BuildTask). s.build_id) e)
            | inr n ↦ elim n [ ]
          ]
        ],
        refl,
      );
}

life : Reach world fresh after_report
life =
    Reach.next (Reach.next Reach.here (Step.hand_out any_arch 5000 first_taken handed_out))
      (Step.report 6000 "" report true reported)

Reach-IsSound_example : IsSound rank after_report
Reach-IsSound_example = Reach-IsSound world fresh-IsSound life

abbrev second : BuildTask
second = record (task 11 "x86_64") {
  built_srpm_url =
      some "AlmaLinux-9-src-1-br/Packages/bash-5.1-1.el9.src.rpm/bash-5.1-1.el9.src.rpm";
}

second_stored : Memᴰ second after_report.tasks
unfolding queue
second_stored = Memᴰ.tail (Memᴰ.head refl)

only_second :
    (t : BuildTask) → Memᴰ t after_report.tasks → is_finished t.status ≡ false → t ≡ second
unfolding queue
only_second t m is_open = elim (mem_cons-cases m) [
  | inl e ↦ cc (ap (λ (r : BuildTask). is_finished r.status) e, is_open)
  | inr r ↦ elim (mem_cons-cases r) [ inl e ↦ e | inr n ↦ elim n [ ] ]
]

serves : Serves world any_arch 8000 after_report
serves = record {
  supported = λ t m is_open. rw (only_second t m is_open) refl;
  expired = λ t m is_open. rw (only_second t m is_open) (unfold is_expired in refl);
  included = λ t m is_open. rw (only_second t m is_open) (unfold is_excluded in refl);
}

get_available_build_task-progress_example :
    (t : BuildTask) × ((get_available_build_task world.ilike after_report any_arch 8000).0 ≡ some t)
unfolding queue
get_available_build_task-progress_example =
    get_available_build_task-progress world any_arch 8000 second fresh-IsSound life second_stored
      refl serves

abbrev second_taken : BuildTask
second_taken = record second { ts = some 8000; status = BuildTaskStatus.started }

second_handed_out :
    (get_available_build_task world.ilike after_report any_arch 8000).0 ≡ some second_taken
unfolding queue
second_handed_out = refl

report_done-never_again_example : second_taken.id ≢ report.task_id
report_done-never_again_example =
    report_done-never_again world 6000 "" after_hand_out report any_arch 8000 second_taken reported
      Reach.here second_handed_out

-- The second task is handed out twenty minutes after the first one at the latest.
abbrev soon_taken : BuildTask
soon_taken = record second { ts = some 6100; status = BuildTaskStatus.started }

soon_handed_out :
    (get_available_build_task world.ilike after_report any_arch 6100).0 ≡ some soon_taken
unfolding queue
soon_handed_out = refl

get_available_build_task-once_example : first_taken.id ≢ soon_taken.id
get_available_build_task-once_example =
    get_available_build_task-once world fresh any_arch any_arch 5000 6100 first_taken soon_taken
      (Reach.next Reach.here (Step.report 6000 "" report true reported)) (tt, tt) (omega arith)
      (ap (λ (p : Option BuildTask × Db). p.0) handed_out) soon_handed_out

-- The build as BuildPlanner makes it.
abbrev caches : List (String × List (String × List ℕ))
caches = ("AlmaLinux-9", ("src", 10 ∷ []) ∷ ("x86_64", 11 ∷ []) ∷ []) ∷ []

abbrev rank_of : ℕ → ℕ
rank_of n = n - 10

planning : Unit {0}
unfolding build_dependency_map platform_edges other_arches arch_edges arch_loop task_edges chain
    first_arch is_independent lookup
planning = tt

planned : build_dependency_map [] caches ≡ ok ((11, 10) ∷ [])
unfolding planning
planned = refl

one_rank : (n k i x : ℕ) → get_elem? (n ∷ []) i ≡ some x → rank_of n ≡ k → rank_of x ≡ 2 * i + k
one_rank n k zero x e is = let same : n ≡ x = some_eq e in omega (arith, same, is)
one_rank n k (suc i) x e is = cc

src_is_first :
    {entry : String × List ℕ}
    → first_arch (("src", 10 ∷ []) ∷ ("x86_64", 11 ∷ []) ∷ []) ≡ ok entry
    → entry ≡ ("src", 10 ∷ [])
unfolding first_arch lookup
src_is_first e = sym (ok-injective e)

ranked : IsRanked rank_of (("src", 10 ∷ []) ∷ ("x86_64", 11 ∷ []) ∷ [])
ranked = record {
  first_ranks = λ entry i x f e.
      let is =
        one_rank 10 0 i x (rw (ap (λ (q : String × List ℕ). q.1) (src_is_first f)) at e) refl in
      omega (arith, is);
  other_ranks = λ entry arch tasks i x f m o e. elim (mem_cons-cases m) [
    | inl q ↦ absurd (
        false≢true (
          sym o
          ∙ rw
              (
                ap (λ (q : String × List ℕ). q.0) q,
                ap (λ (q : String × List ℕ). q.0) (src_is_first f),
              )
              refl))
    | inr r ↦ elim (mem_cons-cases r) [
      | inl q ↦ one_rank 11 1 i x (rw (ap (λ (q : String × List ℕ). q.1) q) at e) refl
      | inr n ↦ elim n [ ]
    ]
  ];
}

fresh-IsPlanned : IsPlanned 1 ((11, 10) ∷ []) fresh
fresh-IsPlanned = record {
  dependencies = refl;
  fresh = λ t m. elim (mem_cons-cases m) [
    | inl e ↦ (ap (λ (r : BuildTask). r.status) e, ap (λ (r : BuildTask). r.build_id) e)
    | inr r ↦ elim (mem_cons-cases r) [
      | inl e ↦ (ap (λ (s : BuildTask). s.status) e, ap (λ (s : BuildTask). s.build_id) e)
      | inr n ↦ elim n [ ]
    ]
  ];
  foreign_key = λ a d m. let (_, below) = edge m in (task 10 "src", Memᴰ.head refl, sym below);
}

build_dependency_map-progress_example :
    (t : BuildTask) × ((get_available_build_task world.ilike after_report any_arch 8000).0 ≡ some t)
unfolding queue
build_dependency_map-progress_example =
    build_dependency_map-progress world rank_of [] caches 1 any_arch 8000 second (ranked, tt)
      planned fresh-IsPlanned life second_stored refl serves
