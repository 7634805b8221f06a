-- ===== src/Outbox/Publisher/Tests.antt =====
-- Two events in the table, and the theorems at concrete inputs.
use manbaa_backend.Base.{
  ℕ, String, ◌≡◌, refl, arith, Bool, true, false, none, some, [], ◌∷◌, All, ◌⊎◌, ◌<◌, length, ◌==◌,
  if◌then◌else◌,
}
use manbaa_backend.Json.{end}
use manbaa_backend.Outbox.Publisher.{pending, OutboxEvent, Table, claim, publish_batch, Delivery}
use manbaa_backend.Outbox.Publisher.Lease.{is_free, claim_exhausts, has_id, claim_disjoint}
use manbaa_backend.Outbox.Publisher.Attempts.{IsBounded, publish_batch-IsBounded}

abbrev event : String → ℕ → OutboxEvent
event id attempts = record {
  id = id;
  event_type = "workspace.source.uploaded";
  payload = end;
  correlation_id = "c1";
  status = pending;
  attempt_count = attempts;
  available_at = 10;
  published_at = none;
  last_error = none;
}

abbrev table : Table
table = event "e1" 0 ∷ event "e2" 7 ∷ []

abbrev unlocked : String → Bool
unlocked id = false

-- `e1` goes out, and `e2` fails.
abbrev nats : OutboxEvent → Delivery
nats e = if e.id == "e1" then (20, none) else (20, some "no responders")

batch : (publish_batch unlocked 15 nats table).0 ≡ 2
unfolding publish_batch claim
batch = refl

taken : has_id "e1" (claim unlocked 15 1 table).0 ≡ true
unfolding claim
taken = refl

claim_disjoint_example : has_id "e1" (claim unlocked 30 20 (claim unlocked 15 1 table).1).0 ≡ false
claim_disjoint_example =
    claim_disjoint unlocked unlocked 15 30 1 20 table "e1" (refl, (refl, tt)) (omega arith) taken

publish_batch-IsBounded_example : All IsBounded (publish_batch unlocked 15 nats table).1
publish_batch-IsBounded_example = publish_batch-IsBounded unlocked 15 nats table bounded
  where
    bounded : All IsBounded table
    bounded = ((omega arith, λ e. cc), ((omega arith, λ e. cc), tt))

claim_exhausts_example :
    (length (claim unlocked 15 20 table).0 ≡ 20)
    ⊎ ((length (claim unlocked 15 20 table).0 < 20)
        × All (λ e. is_free unlocked 15 e ≡ false) (claim unlocked 15 20 table).1)
claim_exhausts_example = claim_exhausts unlocked 15 20 table
