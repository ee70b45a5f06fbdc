-- ===== src/Event.antt =====
-- crates/servicrab-core/src/runtime/event.rs: the events of the runtime, and the channel that
-- bounds the log lines in it. Each call on the channel is one step; a channel has one budget.
mod Samples
pub mod Budget
use servicrab.Base.{
  ℕ, ◌+◌, ◌-◌, ◌/◌, ◌%◌, Bool, true, false, ◌&&◌, not, Option, none, some, List, [], ◌∷◌, ◌++◌,
  Text, ltb, leb, ◌==◌, if◌then◌else◌, Result, ok, err, ℤ,
}
use servicrab.Lifecycle.{ServiceState, ExitReason, ShutdownReason, Duration}

pub data Stream : Type 0 where
  stdout stderr : Stream

pub data EventKind : Type 0 where
  state : ServiceState → EventKind
  started : (pgid : ℤ) → EventKind
  log : (stream : Stream) (line : Text) → EventKind
  exited : (reason : ExitReason) (uptime : Duration) → EventKind
  backoff : (delay : Duration) (attempt : ℕ) → EventKind
  skipped : (dependency : Text) → EventKind
  stopping : (reason : ShutdownReason) → EventKind
  finished : (summary : Text) → EventKind
  healthy : EventKind
  health_probe_failed : (message : Text) (consecutive retries : ℕ) → EventKind
  unhealthy : (message : Text) → EventKind
  watch_triggered : (path : Text) (changed : ℕ) → EventKind
  watch_failed : (message : Text) → EventKind
  watch_truncated : (limit : ℕ) → EventKind
  log_lines_dropped : (count : ℕ) → EventKind
  failed : (message : Text) → EventKind

pub record ServiceEvent : Type 0 where
  pub service : Text
  pub kind : EventKind

abbrev pub max_queued_log_lines : ℕ
max_queued_log_lines = 1024

abbrev pub report_drops_every : ℕ
report_drops_every = 1024

abbrev pub flood_over_below : ℕ
flood_over_below = max_queued_log_lines / 2

-- The queue between the senders and the receiver, with the `LogBudget` that they share.
-- `connected` says that the receiver is still there.
pub record Channel : Type 0 where
  pub inner : List ServiceEvent
  pub queued : ℕ
  pub dropped : ℕ
  pub connected : Bool

-- `event_channel()`
abbrev pub event_channel : Channel
event_channel = record { inner = []; queued = 0; dropped = 0; connected = true }

abbrev pub is_log : EventKind → Bool
is_log (log _ _) = true
is_log _ = false

-- `mpsc::UnboundedSender::send`
abbrev pub inner_send : Channel → ServiceEvent → Result ServiceEvent (Unit {0}) × Channel
inner_send ch event =
    if ch.connected then (ok tt, record ch { inner = ch.inner ++ event ∷ [] }) else (err event, ch)

unfoldable pub report_drops : Channel → Text → Channel
report_drops ch service =
    if ch.dropped == 0
    then record ch { dropped = 0 }
    else (inner_send (record ch { dropped = 0 })
        (record { service = service; kind = log_lines_dropped ch.dropped })).1

-- A log line for which the allowance is used up.
unfoldable pub drop_line : Channel → ServiceEvent → Channel
unfolding report_drops
drop_line ch event =
    let ch' = record ch { dropped = ch.dropped + 1 } in
    if ch'.dropped % report_drops_every == 0 then report_drops ch' event.service else ch'

-- A failed send gives the allowance back.
abbrev give_back :
    Result ServiceEvent (Unit {0}) × Channel → Result ServiceEvent (Unit {0}) × Channel
give_back (ok u, ch) = (ok u, ch)
give_back (err e, ch) = (err e, record ch { queued = ch.queued - 1 })

-- A log line that takes one place of the allowance.
unfoldable pub queue_line : Channel → ServiceEvent → Result ServiceEvent (Unit {0}) × Channel
unfolding report_drops
queue_line ch event =
    let ch' = record ch { queued = ch.queued + 1 } in
    give_back (
      inner_send
        (if ltb ch.queued flood_over_below && ltb 0 ch'.dropped
          then report_drops ch' event.service
          else ch')
        event)

unfoldable pub send : Channel → ServiceEvent → Result ServiceEvent (Unit {0}) × Channel
unfolding drop_line queue_line
send ch event =
    if not (is_log event.kind)
    then inner_send ch event
    else if leb max_queued_log_lines ch.queued
    then (ok tt, drop_line ch event)
    else queue_line ch event

abbrev pub release : Channel → ServiceEvent → Channel
release ch event = if is_log event.kind then record ch { queued = ch.queued - 1 } else ch

abbrev take_first : Channel → List ServiceEvent → Option ServiceEvent × Channel
take_first ch [] = (none, ch)
take_first ch (event ∷ rest) = (some event, release (record ch { inner = rest }) event)

-- `try_recv`, and `recv` on a queue that is not empty.
unfoldable pub try_recv : Channel → Option ServiceEvent × Channel
try_recv ch = take_first ch ch.inner
