-- ===== src/Collectors.antt =====
-- pkg/metrics/saga_collector.go and outbox_collector.go: the gauges that are read from the tables.
-- A collector runs outside of any transaction, while other processes write: it reads the tables as
-- they are at the event of each query. The tickers that start it are left out.
pub mod Grouping
pub mod States
pub mod Unpublished
use go_saga_outbox.Base.{
  ℕ, suc, ◌+◌, ◌-◌, ℤ, pos, negsuc, String, Bool, true, false, not, Option, none, some, List, [],
  ◌∷◌, is_some, leb, ◌==◌, str_eq, any, select, length, if◌then◌else◌,
}
use go_saga_outbox.Runtime.{Time, Env}
use go_saga_outbox.Storage.{Outbox, DeadMessage, Db}
use go_saga_outbox.Orchestrator.Model.{Saga, state_text}
use go_saga_outbox.Orchestrator.Repo.{SagaDb}

-- A gauge vector: the value of each label that was set.
abbrev pub Gauge : Type 0 → Type 0
Gauge A = String → Option A

-- `WithLabelValues(label).Set(value)`
abbrev pub set_gauge : {A : Type 0} → String → A → Gauge A → Gauge A
set_gauge label value g l = if str_eq l label then some value else g l

-- The gauges of pkg/metrics/metrics.go. Ages are nanoseconds.
pub record Gauges : Type 0 where
  pub saga_state : Gauge ℕ
  pub dlq_unreplayed : Gauge ℕ
  pub outbox_unpublished : Gauge ℕ
  pub outbox_oldest_age : Gauge ℤ

-- The collector's process: its gauges, and the number of its events so far.
pub record Monitor : Type 0 where
  pub gauges : Gauges
  pub tick : ℕ

abbrev pub next : Monitor → Monitor
next m = record m { tick = m.tick + 1 }

-- One row more of a group.
abbrev pub bump : String → List (String × ℕ) → List (String × ℕ)
bump label [] = (label, 1) ∷ []
bump label ((l, n) ∷ rows) =
    let rest = bump label rows in if str_eq l label then (l, suc n) ∷ rows else (l, n) ∷ rest

-- `SELECT label, COUNT(*) ... GROUP BY label`
abbrev pub group_by : {A : Type 0} → (A → String) → List A → List (String × ℕ)
group_by label [] = []
group_by label (x ∷ xs) = bump (label x) (group_by label xs)

abbrev pub has_label : String → String × ℕ → Bool
has_label label row = str_eq row.0 label

module _ (e : Env) (set : String → ℕ → Gauges → Gauges) where
  -- The loop over `rows`: whether it came to the end, which `Scan` and `rows.Err` tell.
  unfoldable pub set_rows : List (String × ℕ) → Monitor → Bool × Monitor
  set_rows [] m = (not (e.fault m.tick), next m)
  set_rows ((label, n) ∷ rows) m =
      let rest = set_rows rows (record { gauges = set label n m.gauges; tick = m.tick + 1 }) in
      if e.fault m.tick then (false, next m) else rest

abbrev pub set_state : String → ℕ → Gauges → Gauges
set_state label n g = record g { saga_state = set_gauge label n g.saga_state }

abbrev pub set_dlq : String → ℕ → Gauges → Gauges
set_dlq label n g = record g { dlq_unreplayed = set_gauge label n g.dlq_unreplayed }

abbrev pub states : List String
states = "running" ∷ "compensating" ∷ "completed" ∷ "compensated" ∷ "failed" ∷ []

-- The states that no row named are set to 0.
abbrev pub zero_unseen : List (String × ℕ) → List String → Gauges → Gauges
zero_unseen rows [] g = g
zero_unseen rows (state ∷ rest) g =
    zero_unseen rows rest (if any (has_label state) rows then g else set_state state 0 g)

abbrev pub state_rows : SagaDb → List (String × ℕ)
state_rows d = group_by (λ saga. state_text saga.state) d.own.saga

-- After the loop over the rows.
abbrev pub after_rows : List (String × ℕ) → Bool × Monitor → Monitor
after_rows rows (read, m) =
    if read then record m { gauges = zero_unseen rows states m.gauges } else m

-- `collectSagaStates`
unfoldable pub collect_saga_states : Env → (ℕ → SagaDb) → Monitor → Monitor
unfolding set_rows
collect_saga_states e tables m =
    if e.fault m.tick
    then next m
    else let rows = state_rows (tables m.tick) in
      after_rows rows (set_rows e set_state rows (next m))

abbrev pub is_unreplayed : DeadMessage → Bool
is_unreplayed dm = not (is_some dm.replayed_at)

abbrev pub unreplayed_rows : {T : Type 0} → Db T → List (String × ℕ)
unreplayed_rows d = group_by (λ dm. dm.consumer) (select is_unreplayed d.dead_message)

-- `collectDLQUnreplayed`
unfoldable pub collect_dlq_unreplayed : Env → (ℕ → SagaDb) → Monitor → Monitor
unfolding set_rows
collect_dlq_unreplayed e tables m =
    if e.fault m.tick
    then next m
    else (set_rows e set_dlq (unreplayed_rows (tables m.tick)) (next m)).1

abbrev pub is_unpublished : Outbox → Bool
is_unpublished row = not (is_some row.published_at)

abbrev pub unpublished : {T : Type 0} → Db T → List Outbox
unpublished d = select is_unpublished d.outbox

abbrev pub earlier : Time → Option Time → Option Time
earlier t none = some t
earlier t (some u) = some (if leb t u then t else u)

-- `MIN(created_at)`, which is NULL where there is no row.
abbrev pub oldest : List Outbox → Option Time
oldest [] = none
oldest (row ∷ rows) = earlier row.created_at (oldest rows)

-- The age as a signed number: a row can be younger than the database's clock says.
abbrev pub age : Time → Time → ℤ
age now at = if leb at now then pos (now - at) else negsuc (at - now - 1)

abbrev pub set_age : String → ℤ → Gauges → Gauges
set_age service a g = record g { outbox_oldest_age = set_gauge service a g.outbox_oldest_age }

abbrev pub set_valid_age : String → Time → Option Time → Gauges → Gauges
set_valid_age service now none g = g
set_valid_age service now (some at) g = set_age service (age now at) g

module _ {T : Type 0} (e : Env) (tables : ℕ → Db T) (service : String) where
  -- The second query.
  abbrev collect_age : Monitor → Monitor
  collect_age m = if e.fault m.tick then next m else record {
    gauges = set_valid_age service (e.now m.tick) (oldest (unpublished (tables m.tick))) m.gauges;
    tick = m.tick + 1;
  }

  -- `collectOutboxStats`
  unfoldable pub collect_outbox_stats : Monitor → Monitor
  collect_outbox_stats m =
      if e.fault m.tick
      then next m
      else let count = length (unpublished (tables m.tick)) in
        let counted : Monitor = record {
          gauges = record m.gauges {
            outbox_unpublished = set_gauge service count m.gauges.outbox_unpublished;
          };
          tick = m.tick + 1;
        } in
        if count == 0
        then record counted { gauges = set_age service (pos 0) counted.gauges }
        else collect_age counted
