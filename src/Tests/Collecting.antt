-- ===== src/Tests/Collecting.antt =====
-- The gauges of the collectors.
use go_saga_outbox.Base.{ℕ, ◌≡◌, refl, false, none, some, [], ◌∷◌, if◌then◌else◌, ◌==◌, select}
use go_saga_outbox.Orchestrator.Model.{running, charge_payment, state_text}
use go_saga_outbox.Orchestrator.Repo.{SagaDb}
use go_saga_outbox.Collectors.{Monitor, is_unreplayed, collect_saga_states, collect_dlq_unreplayed}
use go_saga_outbox.Collectors.Grouping.{tally}
use go_saga_outbox.Collectors.States.{collect_saga_states-counts, collect_dlq_unreplayed-counts}
use go_saga_outbox.Tests.{calm, saga_at, tables_of}

calm_faults : (n : ℕ) → calm.fault n ≡ false
calm_faults n = refl

abbrev seen_tables : ℕ → SagaDb
seen_tables n = record (tables_of (saga_at running charge_payment 1)) {
  outbox =
      record {
        id = 63;
        aggregate_type = "saga";
        aggregate_id = 7;
        topic = "saga.payment.commands";
        key = 7;
        payload = [];
        headers = [];
        created_at = 0;
        published_at = none;
      }
      ∷ [];
  dead_message = [];
}

-- The gauges show two dead messages from before.
abbrev monitor : Monitor
monitor = record {
  gauges = record {
    saga_state = λ l. some 4;
    dlq_unreplayed = λ l. some 2;
    outbox_unpublished = λ l. none;
    outbox_oldest_age = λ l. none;
  };
  tick = 0;
}

collect_saga_states-counts_example :
    (collect_saga_states calm seen_tables monitor).gauges.saga_state "running"
    ≡ some (tally (λ saga. state_text saga.state) "running" (seen_tables 0).own.saga)
collect_saga_states-counts_example =
    collect_saga_states-counts calm calm_faults seen_tables monitor running

collect_dlq_unreplayed-counts_example :
    let waiting =
      tally
        (λ dm. dm.consumer)
        "orchestrator"
        (select is_unreplayed (seen_tables 0).dead_message) in
    (collect_dlq_unreplayed calm seen_tables monitor).gauges.dlq_unreplayed "orchestrator"
    ≡ (if waiting == 0 then some 2 else some waiting)
collect_dlq_unreplayed-counts_example =
    collect_dlq_unreplayed-counts calm calm_faults seen_tables monitor "orchestrator"

-- No dead message waits, and the gauge still says that two do.
stale :
    (collect_dlq_unreplayed calm seen_tables monitor).gauges.dlq_unreplayed "orchestrator" ≡ some 2
unfolding collect_dlq_unreplayed
stale = refl
