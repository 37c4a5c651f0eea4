-- ===== src/Collectors/States.antt =====
-- What `collectSagaStates` and `collectDLQUnreplayed` show.
use go_saga_outbox.Base.{
  ℕ, ◌+◌, ◌≡◌, refl, sym, ap, ◌∙◌, ◌⊎◌, inl, inr, String, true, false, not, some, List, [], ◌∷◌,
  ◌==◌, ==_iff, str_eq, eq_iff, any, select, if◌then◌else◌, Bool-cases,
}
use go_saga_outbox.Runtime.{Env}
use go_saga_outbox.Orchestrator.Model.{
  SagaState, running, completed, compensating, compensated, failed, state_text,
}
use go_saga_outbox.Orchestrator.Repo.{SagaDb}
use go_saga_outbox.Collectors.Grouping.{tally, put, any-group_by, put-group_by}
use go_saga_outbox.Collectors.{
  Gauge, set_gauge, Gauges, Monitor, has_label, set_rows, set_state, set_dlq, states, zero_unseen,
  state_rows, collect_saga_states, is_unreplayed, unreplayed_rows, collect_dlq_unreplayed,
}

module _ (e : Env) (calm : (n : ℕ) → e.fault n ≡ false) where
  -- The loop comes to the end, and its gauge holds the rows.
  set_rows-calm :
      (set : String → ℕ → Gauges → Gauges) (gauge : Gauges → Gauge ℕ)
      → ((l : String) (n : ℕ) (g : Gauges) → gauge (set l n g) ≡ set_gauge l n (gauge g))
      → (rows : List (String × ℕ)) (m : Monitor)
      → let r = set_rows e set rows m in
        (r.0 ≡ true) × (gauge r.1.gauges ≡ put rows (gauge m.gauges))
  unfolding set_rows
  set_rows-calm set gauge sets [] m = simp (calm m.tick) (refl, refl)
  set_rows-calm set gauge sets ((label, n) ∷ rows) m =
      let m' : Monitor = record { gauges = set label n m.gauges; tick = m.tick + 1 } in
      let (read, shown) = set_rows-calm set gauge sets rows m' in
      simp (calm m.tick) (read, shown ∙ ap (put rows) (sets label n m.gauges))

  -- The loop over all names of states.
  zero_unseen-seen :
      (rows : List (String × ℕ)) (l : String) (names : List String) (g : Gauges)
      → any (has_label l) rows ≡ true
      → (zero_unseen rows names g).saga_state l ≡ g.saga_state l
  zero_unseen-seen rows l [] g h = refl
  zero_unseen-seen rows l (name ∷ names) g h = elim (Bool-cases (any (has_label name) rows)) [
    | inl seen ↦ simp seen (zero_unseen-seen rows l names g h)
    | inr unseen ↦
        simp unseen
          (zero_unseen-seen rows l names (set_state name 0 g) h ∙ simp (differ unseen) refl)
  ]
    where
      differ : any (has_label name) rows ≡ false → str_eq l name ≡ false
      differ unseen = elim (Bool-cases (str_eq l name)) [
        | inl same ↦ absurd (clash unseen ((eq_iff l name).0 same))
        | inr other ↦ other
      ]
        where
          clash : any (has_label name) rows ≡ false → l ≡ name → ⊥
          clash u p = let h' : any (has_label name) rows ≡ true = rw (sym p) h in cc

  zero_unseen-unseen :
      (rows : List (String × ℕ)) (l : String) (names : List String) (g : Gauges)
      → any (has_label l) rows ≡ false
      → (g.saga_state l ≡ some 0) ⊎ (any (str_eq l) names ≡ true)
      → (zero_unseen rows names g).saga_state l ≡ some 0
  zero_unseen-unseen rows l [] g h (inl zeroed) = zeroed
  zero_unseen-unseen rows l [] g h (inr listed) = cc
  zero_unseen-unseen rows l (name ∷ names) g h before =
      elim (Bool-cases (any (has_label name) rows)) [
        | inl seen ↦ simp seen (zero_unseen-unseen rows l names g h (on_seen before seen))
        | inr unseen ↦
            simp unseen (zero_unseen-unseen rows l names (set_state name 0 g) h (on_unseen before))
      ]
    where
      same_name : str_eq l name ≡ true → any (has_label name) rows ≡ true → ⊥
      same_name s seen =
          let h' : any (has_label name) rows ≡ false = rw (sym ((eq_iff l name).0 s)) h in cc

      on_seen :
          (g.saga_state l ≡ some 0) ⊎ (any (str_eq l) (name ∷ names) ≡ true)
          → any (has_label name) rows ≡ true
          → (g.saga_state l ≡ some 0) ⊎ (any (str_eq l) names ≡ true)
      on_seen (inl zeroed) seen = inl zeroed
      on_seen (inr listed) seen = elim (Bool-cases (str_eq l name)) [
        | inl s ↦ absurd (same_name s seen)
        | inr other ↦ inr (simp other at listed)
      ]

      on_unseen :
          (g.saga_state l ≡ some 0) ⊎ (any (str_eq l) (name ∷ names) ≡ true)
          → ((set_state name 0 g).saga_state l ≡ some 0) ⊎ (any (str_eq l) names ≡ true)
      on_unseen b = elim (Bool-cases (str_eq l name)) [
        | inl s ↦ inl (simp s refl)
        | inr other ↦ still b other
      ]
        where
          still :
              (g.saga_state l ≡ some 0) ⊎ (any (str_eq l) (name ∷ names) ≡ true)
              → str_eq l name ≡ false
              → ((set_state name 0 g).saga_state l ≡ some 0) ⊎ (any (str_eq l) names ≡ true)
          still (inl zeroed) other = inl (simp (other, zeroed))
          still (inr listed) other = inr (simp other at listed)

  named : (s : SagaState) → any (str_eq (state_text s)) states ≡ true
  named running = refl
  named completed = refl
  named compensating = refl
  named compensated = refl
  named failed = refl

  -- Where no query fails, the gauge of every state is the number of sagas that are in it as the
  -- query reads the table, 0 for a state that no saga is in, whatever the gauges showed before.
  pub collect_saga_states-counts :
      (tables : ℕ → SagaDb) (m : Monitor) (s : SagaState)
      → (collect_saga_states e tables m).gauges.saga_state (state_text s)
        ≡ some (tally (λ saga. state_text saga.state) (state_text s) (tables m.tick).own.saga)
  unfolding collect_saga_states
  collect_saga_states-counts tables m s =
      let rows = state_rows (tables m.tick) in
      let sagas = (tables m.tick).own.saga in
      let l = state_text s in
      let m' : Monitor = record m { tick = m.tick + 1 } in
      let (read, shown) = set_rows-calm set_state (λ g. g.saga_state) (λ l n g. refl) rows m' in
      let counted = put-group_by (λ saga. state_text saga.state) sagas m.gauges.saga_state l in
      let labels = any-group_by (λ saga. state_text saga.state) sagas l in
      let after = (set_rows e set_state rows m').1.gauges in
      simp (calm m.tick, read)
        (elim (Bool-cases (tally (λ saga. state_text saga.state) l sagas == 0)) [
          | inl none_there ↦
              zero_unseen-unseen rows l states after (labels ∙ ap not none_there) (inr (named s))
              ∙ ap some (sym ((==_iff _ 0).0 none_there))
          | inr some_there ↦
              zero_unseen-seen rows l states after (labels ∙ ap not some_there)
              ∙ ap (λ g. g l) shown
              ∙ counted
              ∙ simp some_there refl
        ])

  -- Where no query fails, the gauge of a consumer is the number of its dead messages that were not
  -- replayed as the query reads the table, but where there is none left it keeps its last value.
  pub collect_dlq_unreplayed-counts :
      (tables : ℕ → SagaDb) (m : Monitor) (consumer : String)
      → let waiting =
          tally (λ dm. dm.consumer) consumer (select is_unreplayed (tables m.tick).dead_message) in
        (collect_dlq_unreplayed e tables m).gauges.dlq_unreplayed consumer
        ≡ (if waiting == 0 then m.gauges.dlq_unreplayed consumer else some waiting)
  unfolding collect_dlq_unreplayed
  collect_dlq_unreplayed-counts tables m consumer =
      let rows = unreplayed_rows (tables m.tick) in
      let m' : Monitor = record m { tick = m.tick + 1 } in
      let (read, shown) = set_rows-calm set_dlq (λ g. g.dlq_unreplayed) (λ l n g. refl) rows m' in
      simp (calm m.tick) (
        ap (λ g. g consumer) shown
        ∙ put-group_by (λ dm. dm.consumer) (select is_unreplayed (tables m.tick).dead_message)
            m.gauges.dlq_unreplayed consumer)
