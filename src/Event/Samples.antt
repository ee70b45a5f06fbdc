-- ===== src/Event/Samples.antt =====
-- The theorems at concrete inputs.
use servicrab.Base.{◌+◌, List, [], ◌∷◌, ◌≡◌, refl, true, codes, arith}
use servicrab.Event.{log, stdout, ServiceEvent, Channel, event_channel, send}
use servicrab.Event.Budget.{
  sum_lines, count_logs, IsBounded, owed, Op, put, take, run, sent, run-owed,
}

abbrev line : ServiceEvent
line = record { service = codes "api"; kind = log stdout (codes "hello") }

-- A channel whose allowance is used up: a drop is due to be reported.
abbrev flooded : Channel
flooded = record { inner = []; queued = 1024; dropped = 1023; connected = true }

send-flooded : (send flooded line).1.dropped ≡ 0
unfolding send
send-flooded = refl

event_channel-IsBounded : IsBounded event_channel
unfolding count_logs
event_channel-IsBounded = omega arith

abbrev script : List Op
script = put line ∷ take ∷ put line ∷ put line ∷ []

run-owed_example :
    IsBounded (run event_channel script).0
    × (sum_lines (run event_channel script).1 + owed (run event_channel script).0
        ≡ owed event_channel + sum_lines (sent script))
run-owed_example = run-owed event_channel script refl event_channel-IsBounded
