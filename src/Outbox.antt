-- ===== src/Outbox.antt =====
-- pkg/outbox/outbox.go and repo.go: the messages that a service has still to send.
pub mod Ends
pub mod Fetching
use go_saga_outbox.Base.{
  ℕ, String, Bool, not, ◌&&◌, Option, none, some, List, [], ◌∷◌, any, select, update, sort_by, take,
  is_some, ◌==◌, if◌then◌else◌,
}
use go_saga_outbox.Runtime.{
  Uuid, Time, Bytes, Outcome, Codec, Env, World, M, pure, lift, statement, ◌>>=◌, ◌>>◌,
}
use go_saga_outbox.Storage.{Outbox, Db}
use go_saga_outbox.Contracts.{MessageHeaders}

-- `NewOutbox`
abbrev pub new_outbox :
    {D P : Type 0}
    → Codec P
    → Codec MessageHeaders
    → Uuid
    → Uuid
    → Uuid
    → String
    → String
    → P
    → MessageHeaders
    → Time
    → M D Outbox
new_outbox payloads headings id aggregate_id saga_id aggregate_type topic payload headers now = do
  payload_json ← lift (payloads.marshal payload)
  headers_json ← lift (headings.marshal headers)
  pure (record {
    id = id;
    aggregate_type = aggregate_type;
    aggregate_id = aggregate_id;
    topic = topic;
    key = saga_id;
    payload = payload_json;
    headers = headers_json;
    created_at = now;
    published_at = none;
  })

abbrev pub has_id : Uuid → Outbox → Bool
has_id id row = row.id == id

abbrev pub append_row : {T : Type 0} → Outbox → Db T → Option (Unit {0} × Db T)
append_row msg db =
    if any (has_id msg.id) db.outbox
    then none
    else some (tt, record db { outbox = record msg { published_at = none } ∷ db.outbox })

-- `Repo.Append`
unfoldable pub append : {T : Type 0} → Env → Outbox → M (Db T) Unit
unfolding statement
append e msg = statement e (append_row msg)

-- The rows of `WHERE published_at IS NULL` whose lock is free.
abbrev pub is_fetchable : (Uuid → Bool) → Outbox → Bool
is_fetchable locked row = not (is_some row.published_at) && not (locked row.id)

abbrev pub fetch_rows : {T : Type 0} → (Uuid → Bool) → ℕ → Db T → Option (List Outbox × Db T)
fetch_rows locked limit db =
    some (take limit (sort_by (λ row. row.created_at) (select (is_fetchable locked) db.outbox)), db)

-- `Repo.FetchUnpublished`
unfoldable pub fetch_unpublished : {T : Type 0} → Env → ℕ → M (Db T) (List Outbox)
unfolding statement
fetch_unpublished e limit w = statement e (fetch_rows (e.locked w.tick) limit) w

abbrev pub publish_at : Time → Outbox → Outbox
publish_at at row = record row { published_at = some at }

abbrev pub is_listed : List Uuid → Outbox → Bool
is_listed ids row = any (λ id. row.id == id) ids

abbrev pub mark_rows : {T : Type 0} → List Uuid → Time → Db T → Option (Unit {0} × Db T)
mark_rows ids at db =
    some (tt, record db { outbox = update (is_listed ids) (publish_at at) db.outbox })

-- `Repo.MarkPublished`
unfoldable pub mark_published : {T : Type 0} → Env → List Uuid → Time → M (Db T) Unit
unfolding statement
mark_published e [] at = pure tt
mark_published e (id ∷ ids) at = statement e (mark_rows (id ∷ ids) at)
