-- ===== src/Status/Entries.antt =====
-- crates/servicrab-core/src/runtime/status.rs: each part of an entry by the events that tell it.
use servicrab.Base.{
  ℕ, Bool, true, false, ◌||◌, Option, none, some, List, [], ◌∷◌, Text, ℤ, if◌then◌else◌, same,
}
use servicrab.Base.Map
use servicrab.Event.{EventKind, ServiceEvent}
use servicrab.Lifecycle.{ServiceState}
use servicrab.Status.{
  Health, no_check, starting, healthy, Message, skipped, probe_failed, plain, changed, watch_failed,
  watch_truncated, dropped, Entry,
}

-- What the latest of the events says that says anything, and else what was before.
abbrev pub latest {ℓ} : {A : Type ℓ} → (ℕ → EventKind → Option A) → A → List (ℕ × EventKind) → A
latest told old [] = old
latest told old ((now, kind) ∷ events) = latest told (Map.unwrap_or old (told now kind)) events

-- The state is that of the latest change of state.
abbrev pub state_told : ℕ → EventKind → Option ServiceState
state_told now (EventKind.state s) = some s
state_told now _ = none

-- A process is there from its start until the service is in another state than running.
abbrev pub pid_told : ℕ → EventKind → Option (Option ℤ)
pid_told now (EventKind.started pgid) = some (some pgid)
pid_told now (EventKind.state ServiceState.running) = none
pid_told now (EventKind.state _) = some none
pid_told now _ = none

abbrev pub started_at_told : ℕ → EventKind → Option (Option ℕ)
started_at_told now (EventKind.started _) = some (some now)
started_at_told now (EventKind.state ServiceState.running) = none
started_at_told now (EventKind.state _) = some none
started_at_told now _ = none

-- The restarts are the number of the latest attempt.
abbrev pub restarts_told : ℕ → EventKind → Option ℕ
restarts_told now (EventKind.backoff _ attempt) = some attempt
restarts_told now _ = none

-- A start of a process takes the message away.
abbrev pub message_told : ℕ → EventKind → Option (Option Message)
message_told now (EventKind.state ServiceState.starting) = some none
message_told now (EventKind.skipped dependency) = some (some (skipped dependency))
message_told now (EventKind.unhealthy message) = some (some (Message.unhealthy message))
message_told now (EventKind.health_probe_failed message consecutive retries) =
    some (some (probe_failed message consecutive retries))
message_told now (EventKind.failed message) = some (some (plain message))
message_told now (EventKind.finished summary) = some (some (plain summary))
message_told now (EventKind.watch_triggered path count) = some (some (changed path count))
message_told now (EventKind.watch_failed message) = some (some (watch_failed message))
message_told now (EventKind.watch_truncated limit) = some (some (watch_truncated limit))
message_told now (EventKind.log_lines_dropped count) = some (some (dropped count))
message_told now _ = none

-- The verdicts, and the start that takes them back.
abbrev pub health_told : ℕ → EventKind → Option Health
health_told now EventKind.healthy = some healthy
health_told now (EventKind.unhealthy _) = some Health.unhealthy
health_told now (EventKind.state ServiceState.starting) = some starting
health_told now _ = none

abbrev pub is_verdict : EventKind → Bool
is_verdict EventKind.healthy = true
is_verdict (EventKind.unhealthy _) = true
is_verdict _ = false

abbrev pub has_verdict : List (ℕ × EventKind) → Bool
has_verdict [] = false
has_verdict ((now, kind) ∷ events) = is_verdict kind || has_verdict events

-- A service without a check shows none until there is a verdict all the same.
abbrev pub health_after : Health → List (ℕ × EventKind) → Health
health_after no_check events =
    if has_verdict events then latest health_told no_check events else no_check
health_after starting events = latest health_told starting events
health_after healthy events = latest health_told healthy events
health_after Health.unhealthy events = latest health_told Health.unhealthy events

unfoldable pub entry_after : Entry → List (ℕ × EventKind) → Entry
entry_after e events = record {
  state = latest state_told e.state events;
  pid = latest pid_told e.pid events;
  started_at = latest started_at_told e.started_at events;
  restarts = latest restarts_told e.restarts events;
  health = health_after e.health events;
  message = latest message_told e.message events;
}

-- The events of one service.
abbrev pub events_of : Text → List (ℕ × ServiceEvent) → List (ℕ × EventKind)
events_of k [] = []
events_of k ((now, event) ∷ events) =
    let rest = events_of k events in if same event.service k then (now, event.kind) ∷ rest else rest
