-- ===== src/Outbox/Creation.antt =====
-- `create` of src/modules/outbox/outbox.service.ts: the row that a service writes beside its own.
use manbaa_backend.Base.{
  ℕ, String, ◌≡◌, inl, inr, refl, Bool, true, false, Option, none, some, ◌==◌, arith, eq_iff, leb,
  Bool-cases, if◌then◌else◌, or_else, subst,
}
use manbaa_backend.Exec.{Result, ok, err, type_error, Result-cases}
use manbaa_backend.Exec.Check.{◌>>=◌, ◌>>◌, ensure}
use manbaa_backend.Json.{Json, str, Fields, field, end, get}
use manbaa_backend.Outbox.Publisher.{OutboxEvent, pending, due}

-- `Pick<OutboxEvent, …>`, less the aggregate.
pub record OutboxCreateInput : Type 0 where
  pub event_type : String
  pub payload : Fields
  pub correlation_id : String

-- The option `eventIdField`: `eventId` or `event_id`.
pub data EventIdField : Type 0 where
  camel snake : EventIdField

abbrev pub field_name : EventIdField → String
field_name camel = "eventId"
field_name snake = "event_id"

abbrev pub alternate : EventIdField → EventIdField
alternate camel = snake
alternate snake = camel

-- `{ ...payload, [key]: value }`
abbrev pub with_field : String → Json → Fields → Fields
with_field key value end = field key value end
with_field key value (field k v fs) =
    let rest = with_field key value fs in if k == key then field k value fs else field k v rest

-- A property that may be missing, and is a text if it is there.
abbrev pub optional_text : Option Json → Result (Option String)
optional_text none = ok none
optional_text (some (str s)) = ok (some s)
optional_text (some j) = err (type_error "Outbox payload event ID must be a string")

-- `value === undefined || value === id`
abbrev pub absent_or : String → Option Json → Bool
absent_or id none = true
absent_or id (some (str s)) = s == id
absent_or id (some j) = false

abbrev pub event_of : String → ℕ → OutboxCreateInput → Fields → OutboxEvent
event_of id now input payload = record {
  id = id;
  event_type = input.event_type;
  payload = payload;
  correlation_id = input.correlation_id;
  status = pending;
  attempt_count = 0;
  available_at = now;
  published_at = none;
  last_error = none;
}

-- The row that is saved. `uuid` is what `randomUUID` gives.
unfoldable pub create_event :
    String → ℕ → OutboxCreateInput → Option String → EventIdField → Result OutboxEvent
create_event uuid now input event_id id_field = do
  existing ← optional_text (get (field_name id_field) input.payload)
  let id = or_else event_id (or_else existing uuid)
  ensure (absent_or id (get (field_name id_field) input.payload))
      (type_error "Outbox event ID conflicts with the payload event ID")
  ensure (absent_or id (get (field_name (alternate id_field)) input.payload))
      (type_error "Outbox payload contains two different logical event IDs")
  ok (event_of id now input (with_field (field_name id_field) (str id) input.payload))

get-with_field :
    (key j : String) (value : Json) (fs : Fields)
    → get j (with_field key value fs) ≡ (if key == j then some value else get j fs)
get-with_field key j value end = refl
get-with_field key j value (field k v fs) =
    ground (arith, get-with_field key j value fs, eq_iff k key, eq_iff key j, eq_iff k j)

or_else_same : (o : Option String) (d : String) → or_else o (or_else o d) ≡ or_else o d
or_else_same none d = refl
or_else_same (some a) d = refl

-- An event that is created carries its id in the field of the payload that was asked for, and every other
-- field is as it was given; both spellings of the field were missing or agreed with the id; an id that the
-- caller gives is the id of the event; and the publisher may claim the event from then on.
pub create_event_lem :
    (uuid : String) (now later : ℕ) (input : OutboxCreateInput) (event_id : Option String)
    (id_field : EventIdField) (e : OutboxEvent) (j : String)
    → create_event uuid now input event_id id_field ≡ ok e
    → leb now later ≡ true
    → (get j e.payload
        ≡ (if field_name id_field == j then some (str e.id) else get j input.payload))
      × (absent_or e.id (get (field_name id_field) input.payload) ≡ true)
      × (absent_or e.id (get (field_name (alternate id_field)) input.payload) ≡ true)
      × (or_else event_id e.id ≡ e.id)
      × (due later e ≡ true)
unfolding create_event
create_event_lem uuid now later input event_id id_field e j h reached =
    elim (Result-cases (optional_text (get (field_name id_field) input.payload))) [
      | inr (x, failed) ↦ absurd (ground (arith, h))
      | inl (existing, read) ↦
          let id = or_else event_id (or_else existing uuid) in
          elim (Bool-cases (absent_or id (get (field_name id_field) input.payload))) [
            | inr other ↦ absurd (ground (arith, h))
            | inl same ↦
                elim (Bool-cases
                  (absent_or id (get (field_name (alternate id_field)) input.payload))) [
                    | inr other' ↦ absurd (ground (arith, h))
                    | inl same' ↦
                        let made =
                          event_of id now input
                            (with_field (field_name id_field) (str id) input.payload) in
                        let is_made : made ≡ e = ground (arith, h) in
                        subst
                          (λ (x : OutboxEvent).
                            (get j x.payload ≡ (
                              if field_name id_field == j
                              then some (str x.id)
                              else get j input.payload))
                            × (absent_or x.id (get (field_name id_field) input.payload) ≡ true)
                            × (absent_or x.id (get (field_name (alternate id_field)) input.payload)
                                ≡ true)
                            × (or_else event_id x.id ≡ x.id)
                            × (due later x ≡ true))
                          is_made
                          (
                            get-with_field (field_name id_field) j (str id) input.payload,
                            same,
                            same',
                            or_else_same event_id (or_else existing uuid),
                            ground (arith, reached),
                          )
                  ]
          ]
    ]
