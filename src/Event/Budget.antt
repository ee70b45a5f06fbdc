-- ===== src/Event/Budget.antt =====
-- No log line is lost silently, and the queue is bounded.
use servicrab.Base.{
  ℕ, ◌+◌, ◌≤◌, ◌<◌, true, false, Option, none, some, List, [], ◌∷◌, ◌++◌, ◌≡◌, refl, sym, ◌∙◌, leb,
  if◌then◌else◌, ok, arith, Bool-cases, inl, inr, ap,
}
use servicrab.Event.{
  EventKind, log, log_lines_dropped, ServiceEvent, Channel, is_log, report_drops, drop_line,
  queue_line, send, try_recv, take_first, max_queued_log_lines, report_drops_every,
}

-- The log lines that an event stands for: itself, or those that it reports as dropped.
abbrev pub lines : EventKind → ℕ
lines (log _ _) = 1
lines (log_lines_dropped count) = count
lines _ = 0

unfoldable pub sum_lines : List ServiceEvent → ℕ
sum_lines [] = 0
sum_lines (e ∷ es) = lines e.kind + sum_lines es

unfoldable pub count_logs : List ServiceEvent → ℕ
count_logs [] = 0
count_logs (e ∷ es) = (if is_log e.kind then 1 else 0) + count_logs es

sum_lines-append : (xs ys : List ServiceEvent) → sum_lines (xs ++ ys) ≡ sum_lines xs + sum_lines ys
unfolding sum_lines
sum_lines-append [] ys = omega arith
sum_lines-append (x ∷ xs) ys = omega (arith, sum_lines-append xs ys)

count_logs-append :
    (xs ys : List ServiceEvent) → count_logs (xs ++ ys) ≡ count_logs xs + count_logs ys
unfolding count_logs
count_logs-append [] ys = omega arith
count_logs-append (x ∷ xs) ys = omega (arith, count_logs-append xs ys)

-- The budget counts the queued log lines, and there are at most `MAX_QUEUED_LOG_LINES` of them.
-- The unreported losses stay below the number at which they are reported.
pub record IsBounded (ch : Channel) : Type 0 where
  pub counted : ch.queued ≡ count_logs ch.inner
  pub bounded : ch.queued ≤ max_queued_log_lines
  pub reported : ch.dropped < report_drops_every

-- What the channel still owes to the receiver.
abbrev pub owed : Channel → ℕ
owed ch = sum_lines ch.inner + ch.dropped

module _ (ch : Channel) (e : ServiceEvent) where
  report_drops-owed : ch.connected ≡ true → owed (report_drops ch e.service) ≡ owed ch
  unfolding report_drops sum_lines
  report_drops-owed c = ground (
    arith,
    sum_lines-append ch.inner
        (record { service = e.service; kind = log_lines_dropped ch.dropped } ∷ []),
  )

  report_drops_fields :
      ((report_drops ch e.service).queued ≡ ch.queued)
      × ((report_drops ch e.service).dropped ≡ 0)
      × ((report_drops ch e.service).connected ≡ ch.connected)
      × (count_logs (report_drops ch e.service).inner ≡ count_logs ch.inner)
  unfolding report_drops count_logs
  report_drops_fields = (
    ground arith,
    ground arith,
    ground arith,
    ground (
      arith,
      count_logs-append ch.inner
          (record { service = e.service; kind = log_lines_dropped ch.dropped } ∷ []),
    ),
  )

module _ (ch : Channel) (e : ServiceEvent) where
  appended :
      (c : Channel)
      → count_logs (c.inner ++ e ∷ []) ≡ count_logs c.inner + (if is_log e.kind then 1 else 0)
  unfolding count_logs
  appended c = ground (arith, count_logs-append c.inner (e ∷ []))

  appended_lines : (c : Channel) → sum_lines (c.inner ++ e ∷ []) ≡ sum_lines c.inner + lines e.kind
  unfolding sum_lines
  appended_lines c = omega (arith, sum_lines-append c.inner (e ∷ []))

  dropping : Channel
  dropping = record ch { dropped = ch.dropped + 1 }

  taking : Channel
  taking = record ch { queued = ch.queued + 1 }

  drop_line-IsBounded : IsBounded ch → IsBounded (drop_line ch e)
  unfolding drop_line dropping
  drop_line-IsBounded h = ground (arith, report_drops_fields dropping e)

  drop_line-owed : ch.connected ≡ true → owed (drop_line ch e) ≡ owed ch + 1
  unfolding drop_line dropping
  drop_line-owed c = ground (arith, report_drops-owed dropping e c)

  queue_line-IsBounded :
      IsBounded ch
      → is_log e.kind ≡ true
      → ch.queued < max_queued_log_lines
      → IsBounded (queue_line ch e).1
  unfolding queue_line taking
  queue_line-IsBounded h l room = ground (
    arith,
    report_drops_fields taking e,
    appended taking,
    appended (report_drops taking e.service),
  )

  queue_line-owed :
      ch.connected ≡ true
      → is_log e.kind ≡ true
      → ((queue_line ch e).0 ≡ ok tt) × (owed (queue_line ch e).1 ≡ owed ch + lines e.kind)
  unfolding queue_line taking
  queue_line-owed c l = (
    ground (arith, report_drops_fields taking e),
    ground (
      arith,
      report_drops-owed taking e c,
      report_drops_fields taking e,
      appended_lines taking,
      appended_lines (report_drops taking e.service),
    ),
  )

  -- Whatever is sent, and also when the receiver is gone, at most `MAX_QUEUED_LOG_LINES` log lines
  -- are queued, and the budget counts them.
  send-IsBounded : IsBounded ch → IsBounded (send ch e).1
  unfolding send
  send-IsBounded h = ground (arith, drop_line-IsBounded h, queue_line-IsBounded h, appended ch)

  lines_of_log : is_log e.kind ≡ true → lines e.kind ≡ 1
  lines_of_log l = ground arith

  -- While the receiver is there, a send succeeds, and what the channel owes grows by exactly what
  -- was sent: a log line is queued, or counted as dropped, or reported as dropped.
  pub send-owed :
      ch.connected ≡ true → ((send ch e).0 ≡ ok tt) × (owed (send ch e).1 ≡ owed ch + lines e.kind)
  unfolding send
  send-owed c = elim (Bool-cases (is_log e.kind)) [
    | inl l ↦ elim (Bool-cases (leb max_queued_log_lines ch.queued)) [
      | inl full ↦
          rw (l, full) (refl, drop_line-owed c ∙ sym (ap (λ (n : ℕ). owed ch + n) (lines_of_log l)))
      | inr room ↦ rw (l, room) (queue_line-owed c l)
    ]
    | inr other ↦ rw (other, c) (refl, omega (arith, appended_lines ch))
  ]

  -- Only log lines are ever dropped: any other event is the last one in the queue then.
  pub send_other :
      ch.connected ≡ true
      → is_log e.kind ≡ false
      → send ch e ≡ (ok tt, record ch { inner = ch.inner ++ e ∷ [] })
  unfolding send
  send_other c other = rw (other, c)

abbrev lines_of : Option ServiceEvent → ℕ
lines_of none = 0
lines_of (some e) = lines e.kind

-- What a receive keeps, for a queue that is `l`.
take_first-keeps :
    (ch : Channel) (l : List ServiceEvent)
    → ch.inner ≡ l
    → ((take_first ch l).1.connected ≡ ch.connected)
      × (lines_of (take_first ch l).0 + owed (take_first ch l).1 ≡ owed ch)
      × (IsBounded ch → IsBounded (take_first ch l).1)
unfolding sum_lines count_logs
take_first-keeps ch [] at = (refl, ground arith, (λ h. h))
take_first-keeps ch (e ∷ l) at = (ground arith, ground arith, (λ h. ground arith))

-- What is sent to a channel and taken out of it, in any order.
pub data Op : Type 0 where
  put : ServiceEvent → Op
  take : Op

abbrev received : Option ServiceEvent → List ServiceEvent → List ServiceEvent
received none rest = rest
received (some e) rest = e ∷ rest

-- The channel afterwards, and what the receiver got.
pub run : Channel → List Op → Channel × List ServiceEvent
run ch [] = (ch, [])
run ch (put e ∷ ops) = run (send ch e).1 ops
run ch (take ∷ ops) =
    let (got, ch') = try_recv ch in let (ch'', rest) = run ch' ops in (ch'', received got rest)

pub sent : List Op → List ServiceEvent
sent [] = []
sent (put e ∷ ops) = e ∷ sent ops
sent (take ∷ ops) = sent ops

send_connected : (ch : Channel) (e : ServiceEvent) → (send ch e).1.connected ≡ ch.connected
unfolding send drop_line queue_line report_drops
send_connected ch e = ground arith

sum_lines-received :
    (got : Option ServiceEvent) (rest : List ServiceEvent)
    → sum_lines (received got rest) ≡ lines_of got + sum_lines rest
unfolding sum_lines
sum_lines-received none rest = omega arith
sum_lines-received (some e) rest = refl

-- On a channel whose receiver is there and whose budget is kept, however sends and receives follow one
-- another, at most `MAX_QUEUED_LOG_LINES` log lines are queued, the budget counts them, and every log
-- line that was sent has been received, or reported to the receiver as dropped, or is still owed to
-- it. Other events are queued without a limit.
pub run-owed :
    (ch : Channel) (ops : List Op)
    → ch.connected ≡ true
    → IsBounded ch
    → IsBounded (run ch ops).0
      × (sum_lines (run ch ops).1 + owed (run ch ops).0 ≡ owed ch + sum_lines (sent ops))
unfolding run sent sum_lines try_recv
run-owed ch [] c h = (h, omega arith)
run-owed ch (put e ∷ ops) c h =
    let (bounded, same_lines) =
      run-owed (send ch e).1 ops (send_connected ch e ∙ c) (send-IsBounded ch e h) in
    (bounded, omega (arith, same_lines, (send-owed ch e c).1))
run-owed ch (take ∷ ops) c h =
    let (kept, counted, bounds) = take_first-keeps ch ch.inner refl in
    let (bounded, same_lines) = run-owed (try_recv ch).1 ops (kept ∙ c) (bounds h) in
    (
      bounded,
      omega (
        arith,
        same_lines,
        counted,
        sum_lines-received (try_recv ch).0 (run (try_recv ch).1 ops).1,
      ),
    )
