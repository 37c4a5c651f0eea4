-- ===== src/Orchestrator/Service/Router/Moves.antt =====
-- The ways of a saga's state, and what a handler has to do with one saga to keep to them.
use go_saga_outbox.Base.{
  ◌≡◌, sym, ap, ◌∙◌, inl, inr, true, false, ◌||◌, some, ==_iff, find, Bool-cases,
}
use go_saga_outbox.Runtime.{Uuid, Env}
use go_saga_outbox.Inbox.Ends.{repeated, lost}
use go_saga_outbox.Kafka.{Message}
use go_saga_outbox.Orchestrator.Model.{
  SagaState, running, completed, compensating, compensated, failed, Saga, is_compensated,
  is_compensating,
}
use go_saga_outbox.Orchestrator.Repo.{SagaDb, has_id, lookup_saga, upsert_saga}
use go_saga_outbox.Orchestrator.Repo.Lookup.{found-id, upsert_saga-other, upsert_saga-own}
use go_saga_outbox.Orchestrator.Service.Shared.{Codecs}
use go_saga_outbox.Orchestrator.Service.Effects.{Plan, Wrote, Ignored, Skipped}

-- The ways of a saga's state. Forward steps and the failure of a reservation do not look at the
-- state, so that they lead on from any; a compensated saga is not compensated again, and only a
-- compensating saga becomes compensated.
pub data Move : SagaState → SagaState → Type 0 where
  stay : (s : SagaState) → Move s s
  advances : (s : SagaState) → Move s running
  completes : (s : SagaState) → Move s completed
  fails : (s : SagaState) → Move s failed
  running_compensates : Move running compensating
  completed_compensates : Move completed compensating
  failed_compensates : Move failed compensating
  released : Move compensating compensated

-- The state of each saga that is stored before and after has gone one of these ways.
abbrev pub Moves : SagaDb → SagaDb → Type 0
Moves d d' =
    (id : Uuid) (s s' : Saga)
    → lookup_saga id d ≡ some s
    → lookup_saga id d' ≡ some s'
    → Move s.state s'.state

some-injective : {A : Type 0} (a b : A) → some a ≡ some b → a ≡ b
some-injective a b h = cc

pub Moves-refl : (d : SagaDb) → Moves d d
Moves-refl d id s s' known known' = rw (some-injective s s' (sym known ∙ known')) (stay s'.state)

same-Moves : (d d' : SagaDb) → d'.own.saga ≡ d.own.saga → Moves d d'
same-Moves d d' same id s s' known known' =
    rw (some-injective s s' (sym known ∙ (sym (ap (λ rows. find (has_id id) rows) same) ∙ known')))
      (stay s'.state)

-- One saga's row is written over, with a state that its own can go to.
one-Moves :
    (d d' : SagaDb) (saga_id : Uuid) (saga x : Saga)
    → lookup_saga saga_id d ≡ some saga
    → x.id ≡ saga.id
    → Move saga.state x.state
    → d'.own.saga ≡ upsert_saga x d.own.saga
    → Moves d d'
one-Moves d d' saga_id saga x there own move written id s s' known known' =
    elim (Bool-cases (has_id id x)) [
      | inl same ↦
          let id_same : x.id ≡ id = (==_iff x.id id).0 same in
          let at_id : id ≡ saga_id = sym id_same ∙ (own ∙ found-id saga_id d.own.saga saga there) in
          let s_is : s ≡ saga =
            some-injective s saga (sym known ∙ (ap (λ i. lookup_saga i d) at_id ∙ there)) in
          let after : s'.state ≡ x.state = upsert_saga-own x d.own.saga s' (
            ap (λ i. find (has_id i) (upsert_saga x d.own.saga)) id_same
            ∙ (sym (ap (λ rows. find (has_id id) rows) written) ∙ known')) in
          rw s_is (rw after move)
      | inr other ↦
          rw
            (some-injective s s' (
              sym known
              ∙ (sym (upsert_saga-other x id d.own.saga other)
                  ∙ (sym (ap (λ rows. find (has_id id) rows) written) ∙ known'))))
            (stay s'.state)
    ]

-- The guard of a failure: compensation has not started.
pub starts :
    (s : Saga) → (is_compensated s || is_compensating s) ≡ false → Move s.state compensating
starts s going = go s.state going
  where
    go :
        (t : SagaState)
        → (is_compensated (record s { state = t }) || is_compensating (record s { state = t }))
          ≡ false
        → Move t compensating
    go running g = running_compensates
    go completed g = completed_compensates
    go failed g = failed_compensates
    go compensating g = cc
    go compensated g = cc

-- The guard of a release: the saga is compensating.
pub ends : (s : Saga) → is_compensating s ≡ true → Move s.state compensated
ends s back = go s.state back
  where
    go : (t : SagaState) → is_compensating (record s { state = t }) ≡ true → Move t compensated
    go compensating b = released
    go running b = cc
    go completed b = cc
    go compensated b = cc
    go failed b = cc

module _ (c : Codecs) (msg : Message) (d d' : SagaDb) where
  pub repeats : (e : Env) → Skipped e msg d d' → Moves d d'
  repeats e (repeated dup same) = same-Moves d d' (ap (λ t. t.own.saga) same)
  repeats e (lost n h same) = same-Moves d d' (ap (λ t. t.own.saga) same)

  pub ignores : Ignored msg d d' → Moves d d'
  ignores h = same-Moves d d' (ap (λ t. t.own.saga) h.tables)

  pub writes :
      (x : Plan) (saga_id : Uuid) (saga : Saga)
      → lookup_saga saga_id d ≡ some saga
      → x.saga.id ≡ saga.id
      → Move saga.state x.saga.state
      → Wrote c msg x d d'
      → Moves d d'
  writes x saga_id saga known own move h =
      one-Moves d d' saga_id saga x.saga known own move (ap (λ t. t.own.saga) h.tables)
