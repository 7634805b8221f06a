-- ===== src/Outbox/Publisher.antt =====
-- src/modules/outbox/outbox-publisher.service.ts. Times are in milliseconds.
pub mod Lease
pub mod Attempts
mod Tests
use manbaa_backend.Base.{
  ℕ, zero, suc, String, Bool, true, false, not, ◌&&◌, ◌||◌, Option, none, some, List, [], ◌∷◌, ◌+◌,
  ◌*◌, ◌^◌, min, ltb, leb, eqb, ◌==◌, if◌then◌else◌, length, slice,
}
use manbaa_backend.Json.{Fields}

-- `OutboxStatus`
pub data OutboxStatus : Type 0 where
  pending publishing published failed : OutboxStatus

-- entities/outbox-event.entity.ts, less the name of the aggregate.
pub record OutboxEvent : Type 0 where
  pub id : String
  pub event_type : String
  pub payload : Fields
  pub correlation_id : String
  pub status : OutboxStatus
  pub attempt_count : ℕ
  pub available_at : ℕ
  pub published_at : Option ℕ
  pub last_error : Option String

-- The table `outbox_event`, in the order of `created_at`.
abbrev pub Table : Type 0
Table = List OutboxEvent

abbrev pub publish_lease_ms : ℕ
publish_lease_ms = 60000

-- `status IN ('pending', 'failed')` or `status = 'publishing'`
abbrev pub is_open : OutboxStatus → Bool
is_open pending = true
is_open failed = true
is_open publishing = true
is_open published = false

-- The `WHERE` clause of `claim`.
abbrev pub due : ℕ → OutboxEvent → Bool
due now e = is_open e.status && (leb e.available_at now && ltb e.attempt_count 8)

abbrev pub leased : ℕ → OutboxEvent → OutboxEvent
leased now e = record e { status = publishing; available_at = now + publish_lease_ms }

-- `claim`: the first rows that are due and that no other transaction has locked, at most as many as
-- are left, get a lease. The rows of the claim, and the table after it.
unfoldable pub claim : (String → Bool) → ℕ → ℕ → Table → Table × Table
claim locked now zero table = ([], table)
claim locked now (suc n) [] = ([], [])
claim locked now (suc n) (e ∷ table) =
    let take = due now e && not (locked e.id) in
    let rest = claim locked now (if take then n else suc n) table in
    if take then (leased now e ∷ rest.0, leased now e ∷ rest.1) else (rest.0, e ∷ rest.1)

-- `update(id, columns)`
pub update : String → (OutboxEvent → OutboxEvent) → Table → Table
update id f [] = []
update id f (e ∷ table) =
    let rest = update id f table in if e.id == id then f e ∷ rest else e ∷ rest

-- `Math.min(300_000, 1000 * 2 ** attempts)`
abbrev pub backoff : ℕ → ℕ
backoff attempts = min 300000 (1000 * 2 ^ attempts)

-- What is known of one publication: when it ended, and the message of the error if it failed.
abbrev pub Delivery : Type 0
Delivery = ℕ × Option String

-- `publishOne` of an event as it was claimed.
unfoldable pub settled : OutboxEvent → Delivery → OutboxEvent → OutboxEvent
settled event (now, none) row = record row {
  status = published;
  published_at = some now;
  last_error = none;
}
settled event (now, some message) row =
    let attempts = event.attempt_count + 1 in
    record row {
      status = if leb 8 attempts then failed else pending;
      attempt_count = attempts;
      available_at = now + backoff attempts;
      last_error = some (slice 1000 message);
    }

unfoldable pub publish_one : OutboxEvent → Delivery → Table → Table
unfolding update
publish_one event delivery table = update event.id (settled event delivery) table

-- `for (const event of events) await this.publishOne(event)`
pub publish_all : (OutboxEvent → Delivery) → Table → Table → Table
publish_all nats [] table = table
publish_all nats (e ∷ events) table = publish_all nats events (publish_one e (nats e) table)

-- `publishBatch` when no other batch of the process is running: how many events it handled, and the
-- table after it.
unfoldable pub publish_batch : (String → Bool) → ℕ → (OutboxEvent → Delivery) → Table → ℕ × Table
unfolding publish_all
publish_batch locked now nats table =
    let (events, claimed) = claim locked now 20 table in
    (length events, publish_all nats events claimed)

abbrev is_failed : OutboxStatus → Bool
is_failed failed = true
is_failed _ = false

-- `reprocessFailed`
unfoldable pub reprocess_failed : String → ℕ → Table → Table
unfolding update
reprocess_failed id now table =
    update id
      (λ row.
        if is_failed row.status
        then record row {
          status = pending;
          attempt_count = 0;
          available_at = now;
          last_error = none;
        }
        else row)
      table
