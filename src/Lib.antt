-- ===== src/Lib.antt =====
-- The AlmaLinux build system's web server: the control plane that plans builds, hands their tasks
-- to build nodes, takes the reports, and decides who may do what. This library models the
-- decisions that it takes; tables are lists of rows, and a change of the database is a function
-- from tables to tables.
--
-- Parts. A request is first checked against the permissions of the object (alws/perms, with
-- PermissionsMixin of alws/models.py). BuildPlanner (alws/build_planner.py) makes the tasks of a
-- build and the dependencies between them; the rows of these dependencies are what the queue
-- (alws/crud/build_node.py) reads when it hands out a task, and what it removes when a build node
-- reports. The statuses and tables of alws/constants.py are shared by all.
--
-- Prelude has the shared lemmas on lists, dictionaries (association lists, lookup and insert as
-- Python's), errors (Result, with the exception as a value) and texts. Constants is
-- alws/constants.py: Statuses is BuildTaskStatus, RefTypes is BuildTaskRefType with its tables,
-- Matching has the match methods and priorities of Beholder.
--
-- Perms is alws/perms: Actions is actions.py, Roles is roles.py, Authorization is can_perform of
-- authorization.py, and Triad is PermissionsMixin of alws/models.py. Authorization.Grants, Known
-- and Membership are its theorems. An attribute that a class may lack is an Attr, so that hasattr
-- is a test. The session holds one object for each row, so that roles are compared by their
-- identifiers.
--
-- Planner is alws/build_planner.py: Dependencies is BuildPlanner.build_dependency_map, with
-- IndexError and StopIteration as errors; the edges stand in the order in which they are
-- appended. Edges, Platform and Order are its theorems.
--
-- BuildNode is alws/crud/build_node.py: Db has the tables and the updates, Available is
-- get_available_build_task, Done is safe_build_done with __update_built_srpm_url and
-- fast_fail_other_tasks_by_ref, Process is __verify_checksums, __process_rpms, __process_logs and
-- __process_build_task_artifacts, Built is build_done, Restart is get_failed_build_tasks_matrix,
-- the two ways of restarting, mark_build_tasks_as_cancelled and ping_tasks. Handout, Refused,
-- Unblocked, FastFail, Restarted and RestartedRows are their theorems. safe_build_done takes
-- build_done as a parameter; Life puts the modelled one there, makes a step relation of handing
-- out, reporting, cancelling and pinging, and its children are the theorems on what the steps can
-- reach.
--
-- Noarch is alws/utils/noarch.py and Multilib is alws/utils/multilib.py, both called by a report.
-- What Pulp and Beholder answer is a parameter (Services of BuildNode.Process), and what Pulp is
-- told is data.
--
-- SignTasks is alws/crud/sign_task.py: Db has the tables, Create is create_sign_task and
-- create_gen_key_task, Handout is get_available_sign_task, Packages and Complete are
-- complete_sign_task, and Verify is verify_signed_build. Signed, Settled, Once and Released are
-- the theorems. Objects that the session shares are rows with identifiers; an exception rolls the
-- session back, so that an error has no tables. Both creations call can_perform of Perms.
--
-- Teams is update_members and remove_team of alws/crud/teams.py in Members; Kept and Skipped are
-- the theorems. The loop over a member's roles, which removes from the list that it goes over,
-- reads the list at an index.
--
-- TestTasks is alws/crud/test.py: Db has the tables, the batches, the cancellation and the latest
-- tests, Create is create_test_tasks with its callers, Complete is complete_test_task; Batch,
-- Latest and Verdict are the theorems. The payload for the test system and the parsing of logs
-- are left out.
--
-- Users is alws/crud/user.py: Roles is can_edit_teams_roles, add_roles and remove_roles, on the
-- tables of Teams and with can_perform of Perms, and Removal is check_valuable_artifacts and
-- remove_user; Editable and Unlinked are the theorems. Errata is CriteriaNode of
-- alws/crud/errata.py, with its theorem in Meaning.
--
-- Releases is the prediction of repositories of alws/release_planner.py: Cache is
-- update_beholder_cache, Find is find_release_repos, and Predicted is the theorem. A package of
-- Beholder has the keys that the planner reads.
--
-- Bounds and fuel. Numbers are natural numbers, times are seconds. The decimal digits of n are
-- computed on fuel n + 1 and the octal check on fuel n, since a number has no more digits than
-- that. The loop over a member's roles runs on the length of the list: its index grows by one
-- each time, and the list never does. All other recursion is on lists.
--
-- Not modelled: ILIKE, LIKE, str, the lower case of a letter, the name of a source package and
-- the answers of Pulp and Beholder are parameters. Of a report, the index of modules (two
-- parameters that say whether it is read and updated), the errata issues that are moved and the
-- statistics are left out; the life of the queue has no restarts. Row locks, the transaction's
-- isolation, complete_gen_key_task and the set of all tasks that build_dependency_map fills at
-- the end are left out, as are the services that the server calls (Pulp, Gitea, Beholder, the
-- test system) and the HTTP layer.
pub mod Prelude
pub mod Constants
pub mod Perms
pub mod Planner
pub mod BuildNode
pub mod SignTasks
pub mod Teams
pub mod Noarch
pub mod Multilib
pub mod TestTasks
pub mod Errata
pub mod Users
pub mod Releases
