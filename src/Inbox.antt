-- ===== src/Inbox.antt =====
-- pkg/inbox/repo.go: a consumer takes each message once.
pub mod Ends
use go_saga_outbox.Base.{
  ℕ, String, Bool, true, false, ◌&&◌, Option, some, List, ◌∷◌, any, ◌==◌, str_eq, if◌then◌else◌,
}
use go_saga_outbox.Runtime.{Uuid, Time, Env, Metrics, M, pure, count, statement, ◌>>=◌, ◌>>◌}
use go_saga_outbox.Storage.{Inbox, new_inbox, Db}

-- The primary key (consumer, message_id).
abbrev pub same_key : Uuid → String → Inbox → Bool
same_key message_id consumer row = row.message_id == message_id && str_eq row.consumer consumer

abbrev pub seen : {T : Type 0} → Uuid → String → Db T → Bool
seen message_id consumer db = any (same_key message_id consumer) db.inbox

-- `INSERT ... ON CONFLICT (consumer, message_id) DO NOTHING`, and whether a row went in.
abbrev pub insert_row : {T : Type 0} → Inbox → Db T → Option (Bool × Db T)
insert_row msg db =
    if seen msg.message_id msg.consumer db
    then some (false, db)
    else some (true, record db { inbox = msg ∷ db.inbox })

abbrev pub count_duplicate : String → Metrics → Metrics
count_duplicate consumer m = record m { inbox_duplicates = consumer ∷ m.inbox_duplicates }

-- `Repo.Insert`
unfoldable pub insert : {T : Type 0} → Env → Inbox → M (Db T) Bool
unfolding statement
insert e msg = statement e (insert_row msg)

-- `Repo.Dedup`: true if the message is new.
unfoldable pub dedup : {T : Type 0} → Env → Uuid → String → Time → M (Db T) Bool
unfolding insert
dedup e message_id consumer now = do
  inserted ← insert e (new_inbox message_id consumer now)
  if inserted then pure true else do count (count_duplicate consumer); pure false
