-- ===== src/Stack/Samples.antt =====
-- The theorems at concrete inputs: a web service that depends on a database.
use servicrab.Base.{
  join, ◌+◌, true, false, none, some, List, [], ◌∷◌, ◌++◌, Text, codes, ◌≡◌, refl, arith, pos, same,
  same_iff, before,
}
use servicrab.Base.Map
use servicrab.Base.Set
use servicrab.Base.Entries.{map_values}
use servicrab.Config.{
  normal_path, Project, Config, Service, Dependency, term, service_started, condition_for,
}
use servicrab.Lifecycle.{requested, RestartPolicy, ExitReason}
use servicrab.Stack.{
  restarted, Slot, RunState, Control, restart, ServiceReport, finished, exited, StackOptions,
  new_slot, spawn, first_busy, reload_stack,
}
use servicrab.Stack.Commands.{
  set_up, Input, command, report, take_input, is_over, handle_control, on_report, empty_state,
}
use servicrab.Stack.Tasks.{IsTracked}
use servicrab.Stack.Quiet.{waiting, answered, asked}
use servicrab.Stack.Reached.{Reached, begun, step, NoDuplicates, Arrives, Reached-IsTracked}
use servicrab.Stack.Answers.{answered_once, all_answered}
use servicrab.Stack.Orders.{is_live, told, stop_then_report, restart_then_report}
use servicrab.Plan.Held.{IsInOrder}
use servicrab.Stack.Descent.{IsDescending, stop_all-IsDescending}
use servicrab.Stack.Shutdown.{stop_all, sent_to}
use servicrab.Base.Alter.{alter, alter_all}
use servicrab.Stack.Wiring.{AreEdgesOf, reload_stack-edges}
use servicrab.Stack.Turns.{reload_of, planned, but_deps}
use servicrab.Stack.Reloads.{IsPlanOf, reload_stack-reload_of}

abbrev service_of : Text → List Dependency → Service
service_of name depends_on = record {
  name = name;
  executable = name;
  args = [];
  cwd = codes "/";
  env = [];
  env_files = [];
  depends_on = depends_on;
  profiles = [];
  autostart = true;
  restart = RestartPolicy.on_failure;
  restart_delay = 1;
  restart_max_delay = 8;
  max_restarts = 3;
  stable_after = 5;
  shutdown_signal = term;
  shutdown_timeout = 10;
  health = none;
  log_to_file = false;
  watch = none;
}

abbrev db : Text
db = codes "db"

abbrev web : Text
web = codes "web"

abbrev plain_project : Project
plain_project = record { name = []; env = []; env_files = []; logs = none }

abbrev two : Config
two = record {
  source_path = [];
  source_dir = [];
  project = plain_project;
  services =
      (db, service_of db [])
      ∷ (web, service_of web (record { service = db; condition = none } ∷ []))
      ∷ [];
  start_order = db ∷ web ∷ [];
}

abbrev plan : List Text
plan = db ∷ web ∷ []

abbrev options : StackOptions
options = record { no_restart = false; abort_on_failure = false; keep_running = true }

apart : same web db ≡ false
unfolding same
apart = refl

plan-NoDuplicates : NoDuplicates plan
plan-NoDuplicates k = ground (arith, apart, same_iff db k, same_iff web k)

plan-IsPlanOf : IsPlanOf two plan
unfolding Map.get
plan-IsPlanOf = (plan-NoDuplicates, λ k inside. ground (arith, inside))

-- The web service is stopped, and reports.
abbrev stop_web : Input
stop_web = command (Control.stop web 7)

abbrev web_done : ServiceReport
web_done = record { service = web; result = finished (exited (ExitReason.code (pos 0)) 0) }

abbrev st0 : RunState
st0 = set_up two plan []

st0_goes : is_over options st0 ≡ false
unfolding set_up Map.get map_values same Map.insert before
st0_goes = refl

st1_goes : is_over options (take_input options stop_web st0) ≡ false
unfolding set_up handle_control Map.get Map.insert same before map_values
st1_goes = refl

st1_lives : Arrives (report web_done) (take_input options stop_web st0)
unfolding set_up handle_control Map.get Map.insert same before map_values
st1_lives = refl

st1-Reached : Reached options two plan [] (stop_web ∷ []) (take_input options stop_web st0)
st1-Reached = step stop_web begun st0_goes tt

Reached-IsTracked_example : IsTracked (take_input options stop_web st0)
Reached-IsTracked_example = Reached-IsTracked plan-NoDuplicates st1-Reached

abbrev st2 : RunState
st2 = take_input options (report web_done) (take_input options stop_web st0)

answered_once_example :
    waiting 7 st2.slots + answered 7 st2.answers ≡ asked 7 (report web_done ∷ stop_web ∷ [])
answered_once_example =
    answered_once 7 plan-NoDuplicates (step (report web_done) st1-Reached st1_goes st1_lives)

-- The database reports too, and the loop has ended.
abbrev db_done : ServiceReport
db_done = record { service = db; result = finished (exited (ExitReason.code (pos 0)) 0) }

st2_goes : is_over options st2 ≡ false
unfolding set_up handle_control on_report Map.get Map.insert same before map_values
st2_goes = refl

st2_lives : Arrives (report db_done) st2
unfolding set_up handle_control on_report Map.get Map.insert same before map_values
st2_lives = refl

abbrev st3 : RunState
st3 = take_input options (report db_done) st2

st3_ended : st3.running ≡ 0
unfolding set_up handle_control on_report Map.get Map.insert same before map_values
st3_ended = refl

all_answered_example :
    answered 7 st3.answers ≡ asked 7 (report db_done ∷ report web_done ∷ stop_web ∷ [])
all_answered_example =
    all_answered 7 plan-NoDuplicates
      (step (report db_done) (step (report web_done) st1-Reached st1_goes st1_lives) st2_goes
        st2_lives)
      st3_ended

-- The answer has been sent by then.
st2_answered : answered 7 st2.answers ≡ 1
unfolding set_up handle_control on_report Map.get Map.insert same before map_values
st2_answered = refl

abbrev live : Slot
live = spawn (new_slot (service_of web []))

abbrev one_live : Slot → RunState
one_live slot = record st0 { slots = (web, slot) ∷ []; running = 1; tasks = web ∷ [] }

found_live : (slot : Slot) → Map.get (one_live slot).slots web ≡ some slot
unfolding Map.get same
found_live slot = refl

abbrev restarting : Slot
restarting = record live { restart_when_stopped = true }

stop_then_report_example :
    (is_live (
        Map.get
          (on_report options web_done
            (handle_control (Control.stop web 7) (one_live restarting))).slots
          web)
      ≡ some true)
    × ((on_report options web_done
          (handle_control (Control.stop web 7) (one_live restarting))).answers
        ≡ (one_live restarting).answers ++ told 7 restarted ∷ [])
stop_then_report_example =
    stop_then_report options web_done 7 (one_live restarting) restarting none
      (found_live restarting) refl refl refl

restart_then_report_example :
    (is_live (
        Map.get
          (on_report options web_done (handle_control (restart web 7) (one_live live))).slots
          web)
      ≡ some true)
    × ((on_report options web_done (handle_control (restart web 7) (one_live live))).answers
        ≡ (one_live live).answers ++ told 7 restarted ∷ [])
restart_then_report_example =
    restart_then_report options web_done 7 (one_live live) live none (found_live live) refl refl

-- A reload with an empty plan of a stack that runs.
abbrev none_left : Config
none_left = record {
  source_path = [];
  source_dir = [];
  project = plain_project;
  services = [];
  start_order = [];
}

none_left-IsPlanOf : IsPlanOf none_left []
none_left-IsPlanOf = ((λ k. omega arith), (λ k inside. cc))

st0-IsTracked : IsTracked st0
st0-IsTracked = Reached-IsTracked {options = options} plan-NoDuplicates begun

st0_plan-NoDuplicates : NoDuplicates st0.plan
unfolding set_up Map.get map_values same Map.insert before
st0_plan-NoDuplicates = plan-NoDuplicates

st0_quiet : first_busy st0.slots ≡ none
unfolding set_up Map.get Map.insert same before map_values
st0_quiet = refl

reload_stack-reload_of_example :
    but_deps (Map.get (reload_stack none_left [] st0).1.slots web)
    ≡ but_deps (reload_of (planned none_left [] web) (Map.get st0.slots web))
reload_stack-reload_of_example =
    reload_stack-reload_of none_left [] st0 web st0-IsTracked none_left-IsPlanOf st0_quiet

-- The web service is stopped before the database that it depends on.
web_first : sent_to (stop_all st0 requested (λ _. false)).actions ≡ web ∷ db ∷ []
unfolding set_up stop_all Map.get map_values same Map.insert before Set.remove
web_first = refl

st0-IsInOrder : IsInOrder st0.config [] st0.plan
unfolding set_up Map.get map_values same Map.insert before
st0-IsInOrder = (
  (λ service d found in_deps. ground (arith, found, in_deps)),
  ((λ service d found in_deps. ground (arith, found, in_deps)), tt),
)

stop_all-IsDescending_example :
    IsDescending st0.config st0.plan (sent_to (stop_all st0 requested (λ _. true)).actions)
stop_all-IsDescending_example =
    stop_all-IsDescending st0 requested (λ _. true) st0_plan-NoDuplicates st0-IsInOrder

-- A reload that brings both services into an empty stack.
abbrev nothing : RunState
nothing = empty_state none_left []

abbrev web_service : Service
web_service = service_of web (record { service = db; condition = none } ∷ [])

abbrev web_slot : Slot
web_slot = spawn (record (new_slot web_service) {
  deps = record { name = db; condition = service_started } ∷ [];
})

web_found : Map.get (reload_stack two plan nothing).1.slots web ≡ some web_slot
unfolding reload_stack Map.get map_values same Map.insert before alter_all alter condition_for
web_found = refl

web_configured : Map.get two.services web ≡ some web_service
unfolding Map.get same
web_configured = refl

reload_stack-edges_example :
    AreEdgesOf two (reload_stack two plan nothing).1.slots web_service.depends_on web_slot.deps
reload_stack-edges_example =
    reload_stack-edges two plan nothing web web_slot web_service refl web_found web_configured

-- Two spellings of one path.
one_path : normal_path (codes "/srv//app/./logs/") ≡ codes "/srv/app/logs"
unfolding normal_path same join
one_path = refl
