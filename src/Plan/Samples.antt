-- ===== src/Plan/Samples.antt =====
-- The theorem at a concrete input: a database, a web service on top of it, and a tool in a profile.
use servicrab.Base.{
  true, false, none, List, [], ◌∷◌, Text, codes, same, same_iff, before, ok, returned, Returns, ◌≡◌,
  refl, arith,
}
use servicrab.Base.Map
use servicrab.Base.Set
use servicrab.Config.{Project, Config, Service, Dependency, term}
use servicrab.Lifecycle.{RestartPolicy}
use servicrab.Plan.{with_dependents, Selection, plan_stack}
use servicrab.Plan.Held.{IsInOrder}
use servicrab.Plan.Roots.{IsNamed, Planned, plan_stack_iff}

abbrev service_of : Text → List Dependency → List Text → Service
service_of name depends_on profiles = record {
  name = name;
  executable = name;
  args = [];
  cwd = codes "/";
  env = [];
  env_files = [];
  depends_on = depends_on;
  profiles = profiles;
  autostart = true;
  restart = RestartPolicy.on_failure;
  restart_delay = 1;
  restart_max_delay = 8;
  max_restarts = 3;
  stable_after = 5;
  shutdown_signal = term;
  shutdown_timeout = 10;
  health = none;
  log_to_file = false;
  watch = none;
}

abbrev pub db : Text
db = codes "db"

abbrev pub web : Text
web = codes "web"

abbrev on_db : List Dependency
on_db = record { service = db; condition = none } ∷ []

-- The database is in a profile, and started for the web service all the same.
abbrev plain_project : Project
plain_project = record { name = []; env = []; env_files = []; logs = none }

abbrev pub two : Config
two = record {
  source_path = [];
  source_dir = [];
  project = plain_project;
  services = (db, service_of db [] (codes "data" ∷ [])) ∷ (web, service_of web on_db []) ∷ [];
  start_order = db ∷ web ∷ [];
}

abbrev everything : Selection
everything = record { services = []; profiles = [] }

two-IsNamed : IsNamed two
unfolding Map.get
two-IsNamed k service found = ground (arith, found, same_iff db k, same_iff web k)

both_start : plan_stack two everything ≡ returned (ok (db ∷ web ∷ []))
unfolding plan_stack Map.get Set.insert same before
both_start = refl

plan_stack_iff_example : Returns (Planned two everything) (plan_stack two everything)
plan_stack_iff_example = plan_stack_iff two everything two-IsNamed

pub two-IsInOrder : IsInOrder two [] (db ∷ web ∷ [])
unfolding Map.get same
two-IsInOrder = (
  (λ service d found in_deps. ground (arith, found, in_deps)),
  ((λ service d found in_deps. ground (arith, found, in_deps)), tt),
)

both_held : with_dependents two (db ∷ web ∷ []) (db ∷ []) ≡ db ∷ web ∷ []
unfolding with_dependents Map.get Set.insert same before
both_held = refl
