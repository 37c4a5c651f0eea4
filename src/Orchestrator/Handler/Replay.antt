-- ===== src/Orchestrator/Handler/Replay.antt =====
-- How the replay of a dead message answers, and what it did to the tables.
use go_saga_outbox.Base.{String, ◌≡◌, refl, ◌⊎◌, inl, inr, Option, none, some, Option-cases}
use go_saga_outbox.Runtime.{
  Uuid, Time, Bytes, Error, json_syntax, json_type, json_other, already_replayed, cannot_replay,
  db_error, bad, Codec, Env, World,
}
use go_saga_outbox.Storage.{DeadMessage}
use go_saga_outbox.Dlq.{replayable}
use go_saga_outbox.Contracts.{MessageHeaders}
use go_saga_outbox.Dlq.Ends.{lookup_dead}
use go_saga_outbox.Trx.Ends.{Lost}
use go_saga_outbox.Orchestrator.Repo.{SagaDb}
use go_saga_outbox.Orchestrator.Service.Shared.{Codecs}
use go_saga_outbox.Orchestrator.Service.Replay.Replayed.{
  ReplayRefusal, struck, row_taken, unknown, refused, bad_headers, bad_payload, bad_new_headers,
  ReplayedEffect, replay_dead_message-Ends, replay_dead_message-KeptOrDone,
}
use go_saga_outbox.Orchestrator.Handler.{
  Response, respond, error_map, no_content, replayed_reply, replay,
}
use go_saga_outbox.Orchestrator.Handler.Replies.{Replied, settle-Replied}

-- What `encoding/json` fails with.
abbrev pub JsonError : Error → Type 0
JsonError x = (x ≡ json_syntax) ⊎ (x ≡ json_type) ⊎ (x ≡ json_other)

-- What a dead message that cannot be replayed is refused for.
replayable-bad :
    (at : Option Time) (saga_id : Option Uuid) (x : Error)
    → replayable at saga_id ≡ bad x
    → ((t : Time) × (at ≡ some t) × (x ≡ already_replayed))
      ⊎ ((at ≡ none) × (saga_id ≡ none) × (x ≡ cannot_replay))
replayable-bad (some t) saga_id x h = inl (t, refl, cc)
replayable-bad none none x h = inr (refl, refl, cc)
replayable-bad none (some id) x h = cc

module _ (e : Env) (c : Codecs) (compact : Codec Bytes) where
  -- How `Replay` answers.
  pub data ReplayReply (text : String) (d : SagaDb) (reply : Response) (d' : SagaDb) : Type 0 where
    unparsed :
        e.parse_uuid text ≡ none
        → reply ≡ respond 400 (error_map "invalid id")
        → d' ≡ d
        → ReplayReply text d reply d'
    replayed :
        (id : Uuid)
        → e.parse_uuid text ≡ some id
        → reply ≡ respond 202 no_content
        → ReplayedEffect e c compact id d d'
        → ReplayReply text d reply d'
    lost :
        (id : Uuid)
        → e.parse_uuid text ≡ some id
        → reply ≡ respond 202 no_content
        → Lost e d d'
        → ReplayReply text d reply d'
    missing :
        (id : Uuid)
        → e.parse_uuid text ≡ some id
        → lookup_dead id d ≡ none
        → reply ≡ respond 404 (error_map "not found")
        → d' ≡ d
        → ReplayReply text d reply d'
    repeated :
        (id : Uuid) (dm : DeadMessage) (at : Time)
        → e.parse_uuid text ≡ some id
        → lookup_dead id d ≡ some dm
        → dm.replayed_at ≡ some at
        → reply ≡ respond 409 (error_map "already replayed")
        → d' ≡ d
        → ReplayReply text d reply d'
    no_saga :
        (id : Uuid) (dm : DeadMessage)
        → e.parse_uuid text ≡ some id
        → lookup_dead id d ≡ some dm
        → dm.replayed_at ≡ none
        → dm.saga_id ≡ none
        → reply ≡ respond 422 (error_map "cannot replay: missing saga_id")
        → d' ≡ d
        → ReplayReply text d reply d'
    internal :
        (id : Uuid) (x : Error)
        → e.parse_uuid text ≡ some id
        → (x ≡ db_error) ⊎ JsonError x
        → ReplayRefusal e c compact id d x
        → reply ≡ respond 500 (error_map "internal")
        → d' ≡ d
        → ReplayReply text d reply d'

  module _ (headers_read : (b : Bytes) (x : Error) → c.headers.unmarshal b ≡ bad x → JsonError x)
      (headers_write : (h : MessageHeaders) (x : Error) → c.headers.marshal h ≡ bad x → JsonError x)
      (payload_write : (b : Bytes) (x : Error) → compact.marshal b ≡ bad x → JsonError x) where
    by_json :
        (text : String) (id : Uuid) (d : SagaDb) (x : Error)
        → e.parse_uuid text ≡ some id
        → JsonError x
        → ReplayRefusal e c compact id d x
        → ReplayReply text d (replayed_reply (bad x)) d
    by_json text id d x parsed j why = elim j [
      | inl s ↦ internal id x parsed (inr (inl s)) why (rw s refl) refl
      | inr (inl s) ↦ internal id x parsed (inr (inr (inl s))) why (rw s refl) refl
      | inr (inr s) ↦ internal id x parsed (inr (inr (inr s))) why (rw s refl) refl
    ]

    by_fault :
        (text : String) (id : Uuid) (d : SagaDb) (x : Error)
        → e.parse_uuid text ≡ some id
        → x ≡ db_error
        → ReplayRefusal e c compact id d x
        → ReplayReply text d (replayed_reply (bad x)) d
    by_fault text id d x parsed s why = internal id x parsed (inl s) why (rw s refl) refl

    by_refusal :
        (text : String) (id : Uuid) (d : SagaDb) (x : Error)
        → e.parse_uuid text ≡ some id
        → ReplayRefusal e c compact id d x
        → ReplayReply text d (replayed_reply (bad x)) d
    by_refusal text id d x parsed (struck n h s) = by_fault text id d x parsed s (struck n h s)
    by_refusal text id d x parsed (row_taken n h s) =
        by_fault text id d x parsed s (row_taken n h s)
    by_refusal text id d x parsed (unknown gone s) = missing id parsed gone (rw s refl) refl
    by_refusal text id d x parsed (refused dm known b) =
        elim (replayable-bad dm.replayed_at dm.saga_id x b) [
          | inl (t, before, s) ↦ repeated id dm t parsed known before (rw s refl) refl
          | inr (first, orphan, s) ↦ no_saga id dm parsed known first orphan (rw s refl) refl
        ]
    by_refusal text id d x parsed (bad_headers dm known b) =
        by_json text id d x parsed (headers_read dm.headers x b) (bad_headers dm known b)
    by_refusal text id d x parsed (bad_payload dm known b) =
        by_json text id d x parsed (payload_write dm.payload x b) (bad_payload dm known b)
    by_refusal text id d x parsed (bad_new_headers h b) =
        by_json text id d x parsed (headers_write h x b) (bad_new_headers h b)

    -- POST /dead-messages/:id/replay, where the codecs fail with JSON errors only, always answers:
    -- 202 where the message is in the outbox again and marked, or where the commit failed and no
    -- table changed; and with no table changed 400 where the id does not parse, 404 where there is
    -- no such dead message, 409 where it was replayed before, 422 where it has no saga, and 500 for
    -- a failed statement, a taken row id or a JSON error.
    pub replay-Replied :
        (text : String) (w : World SagaDb)
        → Replied (ReplayReply text w.db) (replay e c compact text w)
    unfolding replay
    replay-Replied text w = elim (Option-cases (e.parse_uuid text)) [
      | inl none_parsed ↦ simp none_parsed (unparsed none_parsed refl refl)
      | inr (id, parsed) ↦ simp parsed (
          settle-Replied (ReplayReply text w.db) replayed_reply w _
            (replay_dead_message-Ends e c compact id w)
            (replay_dead_message-KeptOrDone e c compact id w)
            (λ done d' q. elim q [
              | inl gone ↦ lost id parsed refl gone
              | inr effect ↦ replayed id parsed refl effect
            ])
            λ x why. by_refusal text id w.db x parsed why)
    ]
