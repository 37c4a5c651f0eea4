-- ===== src/Kafka/Offsets.antt =====
-- Which offsets the consumer commits, and how long it waits between failed fetches.
use go_saga_outbox.Base.{
  ℕ, ◌*◌, ◌<◌, ◌≡◌, refl, ◌≢◌, false, List, [], ◌∷◌, All, ltb, arith, Bool-cases, inl, inr,
  if◌then◌else◌,
}
use go_saga_outbox.Runtime.{Time, Outcome, ok, err, panic, Env, World}
use go_saga_outbox.Kafka.{
  Message, Handler, Fetched, Fetch, fetched, fetch_failed, cancelled, to_message,
  is_permanent_error, after_handler, consume, backoff_limit, run,
}

-- The offsets of the messages that the reader gives before the context ends.
abbrev pub offsets : List Fetch → List ℕ
offsets [] = []
offsets (cancelled ∷ rest) = []
offsets (fetch_failed ∷ rest) = offsets rest
offsets (fetched m ∷ rest) = m.offset ∷ offsets rest

next_wait :
    (t : Time)
    → t < backoff_limit * 2
    → (if ltb t backoff_limit then t * 2 else t) < backoff_limit * 2
next_wait t h = ground arith

module _ {D : Type 0} (e : Env) (handler : Handler D) (calm : (n : ℕ) → e.fault n ≡ false)
    (safe : (msg : Message) (w : World D) → (handler msg w).0 ≢ panic) where
  after_handler-eq :
      (offset : ℕ) (r : Outcome Unit) (w : World D)
      → r ≢ panic
      → (after_handler e offset r w).0 ≡ ok (offset ∷ [])
  unfolding after_handler
  after_handler-eq offset (ok done) w h = simp (calm w.tick)
  after_handler-eq offset (err x) w h = elim (Bool-cases (is_permanent_error x)) [
    | inl p ↦ simp (p, calm w.tick)
    | inr t ↦ simp (t, calm w.tick)
  ]
  after_handler-eq offset panic w h = absurd (h refl)

  consume-commits : (m : Fetched) (w : World D) → (consume e handler m w).0 ≡ ok (m.offset ∷ [])
  unfolding consume
  consume-commits m w =
      let (r, w') = handler (to_message e m) w in
      after_handler-eq m.offset r w' (safe (to_message e m) w)

  -- Run, with a handler that never panics and where no commit fails: it commits the offset of each
  -- message that it fetches, once and in order, whether the handler took the message, gave it up as
  -- permanent or returned any other error; and no wait after a failed fetch reaches four seconds,
  -- where the waits that it starts from are below that.
  pub run-commits :
      (retry_backoff backoff : Time) (fetches : List Fetch) (w : World D)
      → retry_backoff < backoff_limit * 2
      → backoff < backoff_limit * 2
      → (waits : List Time) × ((run e handler retry_backoff backoff fetches w).0
          ≡ ok (offsets fetches, waits))
        × All (λ t. t < backoff_limit * 2) waits
  unfolding run
  run-commits r b [] w hr hb = ([], refl, tt)
  run-commits r b (cancelled ∷ rest) w hr hb = ([], refl, tt)
  run-commits r b (fetch_failed ∷ rest) w hr hb =
      let (waits, h, low) = run-commits r _ rest w hr (next_wait b hb) in
      (b ∷ waits, simp h, (hb, low))
  run-commits r b (fetched m ∷ rest) w hr hb =
      let (waits, h, low) = run-commits r r rest (consume e handler m w).1 hr hr in
      (waits, simp (consume-commits m w, h), low)
