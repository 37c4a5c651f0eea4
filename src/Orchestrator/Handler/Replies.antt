-- ===== src/Orchestrator/Handler/Replies.antt =====
-- A response, and what it says of the tables.
use go_saga_outbox.Runtime.{Error, Result, good, bad, Outcome, ok, err, panic, World}
use go_saga_outbox.Runtime.Ends.{Ends}
use go_saga_outbox.Trx.Atomic.{KeptOrDone}
use go_saga_outbox.Orchestrator.Repo.{SagaDb}
use go_saga_outbox.Orchestrator.Handler.{Response, settle}

-- The handler gives a response, and it and the tables meet the property.
abbrev pub Replied : (Response → SagaDb → Type 0) → Outcome Response × World SagaDb → Type 0
Replied R (ok response, w) = R response w.db
Replied R (err x, w) = ⊥
Replied R (panic, w) = ⊥

pub settle-Replied :
    {A : Type 0} {X : Error → Type 0} {Q : A → SagaDb → Type 0} (R : Response → SagaDb → Type 0)
    (f : Result A → Response) (w : World SagaDb) (r : Outcome A × World SagaDb)
    → Ends X Q r
    → KeptOrDone w r
    → ((a : A) (d' : SagaDb) → Q a d' → R (f (good a)) d')
    → ((x : Error) → X x → R (f (bad x)) w.db)
    → Replied R (settle f r.0 r.1)
settle-Replied R f w (ok a, w') h k done failed = done a w'.db h.holds.1
settle-Replied R f w (err x, w') h k done failed = rw k (failed x h.holds)
settle-Replied R f w (panic, w') h k done failed = absurd h.holds
