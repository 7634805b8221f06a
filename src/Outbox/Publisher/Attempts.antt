-- ===== src/Outbox/Publisher/Attempts.antt =====
-- How often an event is tried, and what becomes of it.
use manbaa_backend.Base.{
  ℕ, zero, suc, String, ◌≡◌, refl, ◌↔◌, inl, inr, Bool, true, false, none, some, [], ◌∷◌, ◌+◌, ◌*◌,
  ◌^◌, ◌≤◌, ◌<◌, arith, ltb, leb, ◌==◌, All, All-mono, Bool-cases,
}
use manbaa_backend.Outbox.Publisher.{
  failed, OutboxEvent, Table, due, claim, settled, publish_one, publish_all, publish_batch,
  Delivery, backoff,
}
use manbaa_backend.Outbox.Publisher.Lease.{is_free, claim-IsLeased}

-- At most eight attempts, and exactly eight if the event is marked failed.
abbrev pub IsBounded : OutboxEvent → Type 0
IsBounded e = (e.attempt_count ≤ 8) × (e.status ≡ failed → e.attempt_count ≡ 8)

settled-IsBounded :
    (event : OutboxEvent) (d : Delivery) (row : OutboxEvent)
    → event.attempt_count < 8
    → IsBounded row
    → IsBounded (settled event d row)
unfolding settled
settled-IsBounded event (now, none) row few b = (b.0, λ e. cc)
settled-IsBounded event (now, some m) row few b =
    elim (Bool-cases (leb 8 (event.attempt_count + 1))) [
      | inl last ↦ (ground arith, λ e. ground arith)
      | inr more ↦ (ground arith, λ e. ground arith)
    ]

publish_one-IsBounded :
    (event : OutboxEvent) (d : Delivery) (table : Table)
    → event.attempt_count < 8
    → All IsBounded table
    → All IsBounded (publish_one event d table)
unfolding publish_one
publish_one-IsBounded event d [] few b = tt
publish_one-IsBounded event d (row ∷ table) few b = elim (Bool-cases (row.id == event.id)) [
  | inl hit ↦
      rw hit (settled-IsBounded event d row few b.0, publish_one-IsBounded event d table few b.1)
  | inr other ↦ rw other (b.0, publish_one-IsBounded event d table few b.1)
]

publish_all-IsBounded :
    (nats : OutboxEvent → Delivery) (events table : Table)
    → All (λ e. e.attempt_count < 8) events
    → All IsBounded table
    → All IsBounded (publish_all nats events table)
unfolding publish_all
publish_all-IsBounded nats [] table few b = b
publish_all-IsBounded nats (e ∷ events) table few b =
    publish_all-IsBounded nats events (publish_one e (nats e) table) few.1
      (publish_one-IsBounded e (nats e) table few.0 b)

claim-IsBounded :
    (locked : String → Bool) (now n : ℕ) (table : Table)
    → All IsBounded table
    → All IsBounded (claim locked now n table).1
unfolding claim
claim-IsBounded locked now zero table b = b
claim-IsBounded locked now (suc n) [] b = tt
claim-IsBounded locked now (suc n) (e ∷ table) b = elim (Bool-cases (is_free locked now e)) [
  | inl free ↦ rw free ((b.0.0, λ x. cc), claim-IsBounded locked now n table b.1)
  | inr other ↦ rw other (b.0, claim-IsBounded locked now (suc n) table b.1)
]

-- Of a table in which no event counts more than eight attempts, and one that is marked failed counts
-- exactly eight, a batch leaves a table of which the same holds, whatever fails.
pub publish_batch-IsBounded :
    (locked : String → Bool) (now : ℕ) (nats : OutboxEvent → Delivery) (table : Table)
    → All IsBounded table
    → All IsBounded (publish_batch locked now nats table).1
unfolding publish_batch
publish_batch-IsBounded locked now nats table b =
    publish_all-IsBounded nats (claim locked now 20 table).0 (claim locked now 20 table).1
      (All-mono (λ e h. h.2) (claim locked now 20 table).0 (claim-IsLeased locked now 20 table))
      (claim-IsBounded locked now 20 table b)

uncapped : (a : ℕ) → a ≤ 8 → backoff a ≡ 1000 * 2 ^ a
uncapped zero h = refl
uncapped (suc zero) h = refl
uncapped (suc (suc zero)) h = refl
uncapped (suc (suc (suc zero))) h = refl
uncapped (suc (suc (suc (suc zero)))) h = refl
uncapped (suc (suc (suc (suc (suc zero))))) h = refl
uncapped (suc (suc (suc (suc (suc (suc zero)))))) h = refl
uncapped (suc (suc (suc (suc (suc (suc (suc zero))))))) h = refl
uncapped (suc (suc (suc (suc (suc (suc (suc (suc zero)))))))) h = refl
uncapped (suc (suc (suc (suc (suc (suc (suc (suc (suc a))))))))) h = absurd (omega arith)

-- After a failed publication that is not the last one, an event is due again after a time that
-- doubles with each attempt; the cap of five minutes is never reached.
pub settled-due :
    (event row : OutboxEvent) (now later : ℕ) (message : String)
    → event.attempt_count < 7
    → (due later (settled event (now, some message) row) ≡ true)
      ↔ (now + 1000 * 2 ^ (event.attempt_count + 1) ≤ later)
unfolding settled
settled-due event row now later message few =
    let wait = uncapped (event.attempt_count + 1) (omega arith) in
    let retried : leb 8 (event.attempt_count + 1) ≡ false = ground arith in
    let left : ltb (event.attempt_count + 1) 8 ≡ true = ground arith in
    rw (retried, left, wait) (λ h. ground arith, λ h. ground arith)
