-- ===== src/Collectors/Unpublished.antt =====
-- What `collectOutboxStats` shows.
use go_saga_outbox.Base.{◌≤◌, ◌≡◌, true, List, ◌==◌, All, any}
use go_saga_outbox.Runtime.{Time}
use go_saga_outbox.Storage.{Outbox}

-- There is a row of that time, and no row is older.
abbrev pub IsOldest : Time → List Outbox → Type 0
IsOldest t rows =
    All (λ row. t ≤ row.created_at) rows × (any (λ row. row.created_at == t) rows ≡ true)
