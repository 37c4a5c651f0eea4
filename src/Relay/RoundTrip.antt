-- ===== src/Relay/RoundTrip.antt =====
-- What a consumer reads is what the relay sent: `Publish` and `toMessage` fit.
use mathlib.Core.Bool.{Bool-set}
use mathlib.Core.List.{Perm, Permᴰ}
use mathlib.Core.List.Permᴰ.{nil, cons, swap, trans}
use mathlib.Core.Logic.{∥∥₁_elim}
use mathlib.Core.Option
use go_saga_outbox.Base.{
  String, ◌≡◌, refl, ap, ◌∙◌, inl, inr, Bool, true, false, not, ◌&&◌, ◌||◌, Option, none, some,
  List, [], ◌∷◌, any, str_eq, eq_iff, Bool-cases, arith,
}
use go_saga_outbox.Runtime.{Uuid, malformed_headers, Result, good, bad, Env, Record}
use go_saga_outbox.Storage.{Outbox}
use go_saga_outbox.Contracts.{MessageHeaders}
use go_saga_outbox.Kafka.{
  Headers, header, Fetched, header_map, to_message, get_saga_id_from_headers, message_id_of,
  saga_id_of, parsed_id,
}
use go_saga_outbox.Relay.{record_of}

module _ {A : Type 0} (p : A → Bool) where
  any-Permᴰ : {xs ys : List A} → Permᴰ xs ys → any p xs ≡ any p ys
  any-Permᴰ nil = refl
  any-Permᴰ (cons {b = b} same rest) = rw same (ap (λ c. p b || c) (any-Permᴰ rest))
  any-Permᴰ (swap same same') = rw same (rw same' (ground arith))
  any-Permᴰ (trans first second) = any-Permᴰ first ∙ any-Permᴰ second

  -- A search for some entry does not see the order.
  any-Perm : (xs ys : List A) → Perm xs ys → any p xs ≡ any p ys
  any-Perm xs ys h = ∥∥₁_elim h (Bool-set (any p xs) (any p ys)) (λ d. any-Permᴰ d)

abbrev has_key : String → String × String → Bool
has_key k entry = str_eq entry.0 k

-- An entry of the key with another value.
abbrev other_value : String → String → String × String → Bool
other_value k v entry = str_eq entry.0 k && not (str_eq entry.1 v)

any-header_map :
    (p : String × String → Bool) (acc h : Headers)
    → any p (header_map acc h) ≡ (any p acc || any p h)
any-header_map p acc [] = ground arith
any-header_map p acc (entry ∷ h) =
    let rest = any-header_map p (entry ∷ acc) h in rest ∙ (ground arith)

header-only :
    (k v : String) (h : Headers)
    → any (has_key k) h ≡ true
    → any (other_value k v) h ≡ false
    → header k h ≡ some v
header-only k v [] there single = cc
header-only k v ((j, u) ∷ h) there single = elim (Bool-cases (str_eq j k)) [
  | inl same ↦ simp same (ap some ((eq_iff u v).0 (own same)))
  | inr other ↦ simp other (header-only k v h (simp other at there) (simp other at single))
]
  where
    own : str_eq j k ≡ true → str_eq u v ≡ true
    own same = ground arith

header-none : (k : String) (h : Headers) → any (has_key k) h ≡ false → header k h ≡ none
header-none k [] gone = refl
header-none k ((j, u) ∷ h) gone = elim (Bool-cases (str_eq j k)) [
  | inl same ↦ absurd (clash same)
  | inr other ↦ simp other (header-none k h (simp other at gone))
]
  where
    clash : str_eq j k ≡ true → ⊥
    clash same = ground arith

-- The broker delivers the topic, key, value and headers of the record; the order of the headers is
-- that of a Go map, which is any.
pub record Arrives (sent : Record) (m : Fetched) : Type 0 where
  pub same_topic : m.topic ≡ sent.topic
  pub same_value : m.value ≡ sent.value
  pub same_headers : Perm m.headers sent.headers

-- A header of the record, whichever order they arrive in.
Arrives-header :
    (sent : Record) (m : Fetched) (k v : String)
    → Arrives sent m
    → any (has_key k) sent.headers ≡ true
    → any (other_value k v) sent.headers ≡ false
    → header k (header_map [] m.headers) ≡ some v
Arrives-header sent m k v h there single =
    header-only k v (header_map [] m.headers)
      (any-header_map (has_key k) [] m.headers
        ∙ any-Perm (has_key k) m.headers sent.headers h.same_headers
        ∙ there)
      (any-header_map (other_value k v) [] m.headers
        ∙ any-Perm (other_value k v) m.headers sent.headers h.same_headers
        ∙ single)

-- The headers of a record: each key has its value and no other.
module _ (e : Env) (row : Outbox) (hdr : MessageHeaders) where
  abbrev sent_headers : Option Uuid → Headers
  sent_headers cause = (record_of e row (record hdr { causation_id = cause })).headers

  text_same : (s : String) → str_eq s s ≡ true
  text_same s = (eq_iff s s).1 refl

  message_id-single :
      (cause : Option Uuid)
      → any (other_value "message_id" (e.uuid_text hdr.message_id)) (sent_headers cause) ≡ false
  message_id-single none = simp (text_same (e.uuid_text hdr.message_id))
  message_id-single (some id) = simp (text_same (e.uuid_text hdr.message_id))

  saga_id-single :
      (cause : Option Uuid)
      → any (other_value "saga_id" (e.uuid_text hdr.saga_id)) (sent_headers cause) ≡ false
  saga_id-single none = simp (text_same (e.uuid_text hdr.saga_id))
  saga_id-single (some id) = simp (text_same (e.uuid_text hdr.saga_id))

  event_type-single :
      (cause : Option Uuid)
      → any (other_value "event_type" hdr.event_type) (sent_headers cause) ≡ false
  event_type-single none = simp (text_same hdr.event_type)
  event_type-single (some id) = simp (text_same hdr.event_type)

  schema_version-single :
      (cause : Option Uuid)
      → any (other_value "schema_version" (e.int_text hdr.schema_version)) (sent_headers cause)
        ≡ false
  schema_version-single none = simp (text_same (e.int_text hdr.schema_version))
  schema_version-single (some id) = simp (text_same (e.int_text hdr.schema_version))

  saga_id_read :
      (m : Fetched)
      → (e.parse_uuid (e.uuid_text hdr.saga_id) ≡ some hdr.saga_id)
      → header "saga_id" (header_map [] m.headers) ≡ some (e.uuid_text hdr.saga_id)
      → get_saga_id_from_headers e (to_message e m) ≡ good hdr.saga_id
  unfolding to_message
  saga_id_read m parses h =
      ap (saga_id_of e) h
      ∙ ap (λ o. elim o as (λ p. Result Uuid) [ none ↦ bad malformed_headers | some id ↦ good id ])
          parses

  message_id_read :
      (m : Fetched)
      → (e.parse_uuid (e.uuid_text hdr.message_id) ≡ some hdr.message_id)
      → header "message_id" (header_map [] m.headers) ≡ some (e.uuid_text hdr.message_id)
      → (to_message e m).message_id ≡ hdr.message_id
  unfolding to_message
  message_id_read m parses h = ap (message_id_of e) h ∙ ap parsed_id parses

  causation_id_read :
      (m : Fetched) (cause : Option Uuid)
      → Arrives (record_of e row (record hdr { causation_id = cause })) m
      → header "causation_id" (header_map [] m.headers) ≡ Option.map e.uuid_text cause
  causation_id_read m none h = header-none "causation_id" (header_map [] m.headers) (
      any-header_map (has_key "causation_id") [] m.headers
      ∙ any-Perm (has_key "causation_id") m.headers (sent_headers none) h.same_headers)
  causation_id_read m (some id) h =
      Arrives-header _ m "causation_id" (e.uuid_text id) h refl (simp (text_same (e.uuid_text id)))

  -- What the relay sends for an outbox row is what a consumer reads, in whichever order the headers
  -- arrive, where a UUID's text parses back into it: `toMessage` gives the row's topic and payload
  -- and the message id of the headers, and the headers that the handlers and the DLQ look at, the
  -- saga's id, the event type, the cause and the schema version, are those that the producer of the
  -- row wrote.
  pub to_message-record_of :
      ((id : Uuid) → e.parse_uuid (e.uuid_text id) ≡ some id)
      → (m : Fetched) → Arrives (record_of e row hdr) m
      → let msg = to_message e m in
        (msg.topic ≡ row.topic)
        × (msg.value ≡ row.payload)
        × (msg.message_id ≡ hdr.message_id)
        × (get_saga_id_from_headers e msg ≡ good hdr.saga_id)
        × (header "event_type" msg.headers ≡ some hdr.event_type)
        × (header "schema_version" msg.headers ≡ some (e.int_text hdr.schema_version))
        × (header "causation_id" msg.headers ≡ Option.map e.uuid_text hdr.causation_id)
  unfolding to_message
  to_message-record_of parses m h = (
    h.same_topic,
    h.same_value,
    message_id_read m (parses hdr.message_id)
        (Arrives-header _ m "message_id" _ h refl (message_id-single hdr.causation_id)),
    saga_id_read m (parses hdr.saga_id)
        (Arrives-header _ m "saga_id" _ h refl (saga_id-single hdr.causation_id)),
    Arrives-header _ m "event_type" _ h refl (event_type-single hdr.causation_id),
    Arrives-header _ m "schema_version" _ h refl (schema_version-single hdr.causation_id),
    causation_id_read m hdr.causation_id h,
  )
