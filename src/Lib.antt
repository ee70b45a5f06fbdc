-- ===== src/Lib.antt =====
-- Verification library of Servicrab, a process supervisor written in Rust: the library crate
-- crates/servicrab-core, with the configuration, the lifecycle of a service and the runtime, and the
-- command line crates/servicrab-cli on top of it.
--
-- The program. A configuration is read and validated into services with dependencies, whose start
-- order a topological sort fixes (graph.rs). A stack is supervised by one loop (runtime/stack.rs)
-- that keeps a slot for each service and spawns a task for it. A task waits for its dependencies
-- (the readiness part of stack.rs), runs the process, restarts it by its policy (lifecycle.rs) and
-- reports to the loop in the end. It tells what happens by events, on a channel that bounds log
-- lines (runtime/event.rs), and a monitor probes the process's health (runtime/health.rs).
--
-- The files, and the code they are about (under crates/servicrab-core/src):
--   Graph      graph.rs. `deps` is a BTreeMap; the tables, the queue and the drain of
--              topological_sort, then find_cycle with dfs. Loops run on fuel: the drain has a turn
--              for each service, and the search goes as deep as there are services.
--   Lifecycle  lifecycle.rs. ServiceState and StateMachine, and RestartTracker with its backoff.
--   Config     config.rs, the types of the validated configuration. Services are compared as `PartialEq`
--              does, with paths by their components.
--   Event      runtime/event.rs. A channel is its queue with its LogBudget, and each call one step.
--   Readiness  runtime/stack.rs: DependencyStatus, ReadinessTracker::observe, and the wait for the
--              dependencies, whose status changes are inputs.
--   Stack      runtime/stack.rs: RunState with the locals of StackSupervisor::run, its setup and its
--              loop over reports, commands and shutdowns (Stack.Commands), and reload. A tokio task
--              is the name of its service in the list `tasks`; an acknowledgement channel is a
--              number, and an answer on it stands in `answers`. Reached is what the loop can come to,
--              and Stack.Shutdown is stop_all behind it, as the actions that it takes in turn.
--   Health     runtime/health.rs: the loop of HealthMonitor::run over the outcomes of its probes.
--   Plan       runtime/plan.rs: plan_stack, and the dependents of what is held back. The search for
--              dependencies runs on fuel, one step of depth for each configured service and one
--              more.
--   Status     runtime/status.rs: StatusRegistry over the events, with the time of each call.
--   Subst      subst.rs: `expand` with its loop over `${`, and expand_raw over every field. The loop
--              runs on fuel, one more than the length of the value.
--   Envfile    envfile.rs: `parse` line by line, and the values in quotes and without.
--   Raw        raw.rs, the configuration as it is written; Errors is error.rs, with the texts that
--              `format!` makes as constructors. A function with `&mut Vec<ConfigError>` is an
--              Errors.Checked: what it returns, and what it appends.
--   Include    include.rs: `merge` and the walk over the included files, on fuel that bounds its depth; as
--              many files as can be read, and one more, are enough. Load is load.rs: the search for the
--              file, with the length of the directory's path as fuel, and `load`. The readings of TOML
--              are arguments.
--   Validation validation.rs, every function: Names, Fields, Files and Probes are the parts of a
--              service, Services the loop over them, and Pipeline the checks across services and
--              validate_raw. The operating system, the crate humantime and the machine's f64 are
--              the record Host.
--   Stopped    crates/servicrab-cli/src/daemon/stopped.rs: the file of the services that were stopped by
--              hand, as its contents, and what of a plan it holds back.
--   Base       the standard library's lists, texts, BTreeMap and BTreeSet, results, and runs that may
--              panic or not end.
--
-- Conventions. Texts are lists of code points, durations are nanoseconds, integers are native
-- numbers with the saturation of the source written out. A run that panics is `panicked`, and fuel
-- that does not suffice shows as `out_of_fuel`, so a theorem that a run returns excludes both.
--
-- Not modelled: processes, signals, log files, the file watcher and the daemon's sockets, which are I/O; the
-- protocol's messages, which a serialization library defines; and the command line, which prints and
-- calls the library. The probes, the processes and the scheduling of tasks are inputs of the loops.
pub mod Base
pub mod Config
pub mod Envfile
pub mod Errors
pub mod Event
pub mod Graph
pub mod Health
pub mod Include
pub mod Lifecycle
pub mod Load
pub mod Plan
pub mod Raw
pub mod Readiness
pub mod Stack
pub mod Status
pub mod Stopped
pub mod Subst
pub mod Validation
