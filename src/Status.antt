-- ===== src/Status.antt =====
-- crates/servicrab-core/src/runtime/status.rs: the registry that folds events into a status for each
-- service. The instants are numbers, and each call that reads the clock has the time with it.
mod Samples
pub mod Registry
pub mod Entries
use servicrab.Base.{
  match_option, ℕ, ◌+◌, ◌-◌, Bool, true, false, if◌then◌else◌, Option, none, some, List, [], ◌∷◌,
  Text, ℤ, map, for_each,
}
use servicrab.Base.Count.{contains}
use servicrab.Base.Map
use servicrab.Base.Map.{BTreeMap}
use servicrab.Base.Alter.{retain}
use servicrab.Event.{EventKind, ServiceEvent}
use servicrab.Lifecycle.{ServiceState, Duration}

pub data Health : Type 0 where
  no_check starting healthy unhealthy : Health

-- The messages, one constructor for each sentence that is formatted.
pub data Message : Type 0 where
  skipped : (dependency : Text) → Message
  unhealthy : (message : Text) → Message
  probe_failed : (message : Text) (consecutive retries : ℕ) → Message
  plain : (message : Text) → Message
  changed : (path : Text) (changed : ℕ) → Message
  watch_failed : (message : Text) → Message
  watch_truncated : (limit : ℕ) → Message
  dropped : (count : ℕ) → Message

pub record Entry : Type 0 where
  pub state : ServiceState
  pub pid : Option ℤ
  pub started_at : Option ℕ
  pub restarts : ℕ
  pub health : Health
  pub message : Option Message

-- `Entry::new`
abbrev pub new_entry : Bool → Entry
new_entry has_health = record {
  state = ServiceState.pending;
  pid = none;
  started_at = none;
  restarts = 0;
  health = if has_health then starting else no_check;
  message = none;
}

pub record ServiceStatus : Type 0 where
  pub name : Text
  pub state : ServiceState
  pub pid : Option ℤ
  pub uptime : Option Duration
  pub restarts : ℕ
  pub health : Health
  pub message : Option Message

pub record StatusRegistry : Type 0 where
  pub services : BTreeMap Entry
  pub order : List Text

abbrev pub names : List (Text × Bool) → List Text
names services = map (λ (s : Text × Bool). s.0) services

-- `StatusRegistry::new`
unfoldable pub new_registry : List (Text × Bool) → StatusRegistry
new_registry services = record {
  services = for_each (λ m (s : Text × Bool). Map.insert s.0 (new_entry s.1) m) [] services;
  order = names services;
}

unfoldable pub or_insert_all : BTreeMap Entry → List (Text × Bool) → BTreeMap Entry
or_insert_all m [] = m
or_insert_all m ((name, has_health) ∷ services) =
    or_insert_all (Map.or_insert name (new_entry has_health) m) services

unfoldable pub sync : StatusRegistry → List (Text × Bool) → StatusRegistry
unfolding or_insert_all
sync r services = record {
  services = retain (λ name. contains (names services) name) (or_insert_all r.services services);
  order = names services;
}

abbrev pub restart_check : Health → Health
restart_check no_check = no_check
restart_check _ = starting

-- The arm of `EventKind::State`.
abbrev pub enter_state : ServiceState → Entry → Entry
enter_state ServiceState.running e = record e { state = ServiceState.running }
enter_state ServiceState.starting e = record e {
  state = ServiceState.starting;
  pid = none;
  started_at = none;
  message = none;
  health = restart_check e.health;
}
enter_state s e = record e { state = s; pid = none; started_at = none }

abbrev tell : Message → Entry → Entry
tell m e = record e { message = some m }

abbrev pub apply_kind : ℕ → EventKind → Entry → Entry
apply_kind now (EventKind.state s) e = enter_state s e
apply_kind now (EventKind.started pgid) e = record e { pid = some pgid; started_at = some now }
apply_kind now (EventKind.backoff _ attempt) e = record e { restarts = attempt }
apply_kind now (EventKind.skipped dependency) e = tell (skipped dependency) e
apply_kind now EventKind.healthy e = record e { health = healthy }
apply_kind now (EventKind.unhealthy message) e = record e {
  health = Health.unhealthy;
  message = some (Message.unhealthy message);
}
apply_kind now (EventKind.health_probe_failed message consecutive retries) e =
    tell (probe_failed message consecutive retries) e
apply_kind now (EventKind.failed message) e = tell (plain message) e
apply_kind now (EventKind.finished summary) e = tell (plain summary) e
apply_kind now (EventKind.watch_triggered path count) e = tell (changed path count) e
apply_kind now (EventKind.watch_failed message) e = tell (watch_failed message) e
apply_kind now (EventKind.watch_truncated limit) e = tell (watch_truncated limit) e
apply_kind now (EventKind.log_lines_dropped count) e = tell (dropped count) e
apply_kind now (EventKind.log _ _) e = e
apply_kind now (EventKind.exited _ _) e = e
apply_kind now (EventKind.stopping _) e = e

unfoldable pub apply : ℕ → StatusRegistry → ServiceEvent → StatusRegistry
apply now r event =
    match_option (Map.get r.services event.service) r (λ e. record r {
      services = Map.insert event.service (apply_kind now event.kind e) r.services;
    })

abbrev pub status_of : ℕ → Text → Entry → ServiceStatus
status_of now name e = record {
  name = name;
  state = e.state;
  pid = e.pid;
  uptime = match_option e.started_at none (λ at. some (now - at));
  restarts = e.restarts;
  health = e.health;
  message = e.message;
}

abbrev pub statuses : ℕ → BTreeMap Entry → List Text → List ServiceStatus
statuses now services [] = []
statuses now services (name ∷ order) =
    let rest = statuses now services order in
    match_option (Map.get services name) rest (λ e. status_of now name e ∷ rest)

unfoldable pub snapshot : ℕ → StatusRegistry → List ServiceStatus
snapshot now r = statuses now r.services r.order
