-- ===== src/Outbox/Tests.antt =====
-- An event that is created with the id of its payload.
use manbaa_backend.Base.{◌≡◌, refl, none}
use manbaa_backend.Exec.{ok}
use manbaa_backend.Json.{str, field, end}
use manbaa_backend.Outbox.Publisher.{OutboxEvent}
use manbaa_backend.Outbox.Creation.{OutboxCreateInput, camel, event_of, create_event}

abbrev input : OutboxCreateInput
input = record {
  event_type = "source.uploaded";
  payload = field "eventId" (str "e1") (field "name" (str "a.pdf") end);
  correlation_id = "k1";
}

abbrev event : OutboxEvent
event = event_of "e1" 5 input input.payload

was_created : create_event "u1" 5 input none camel ≡ ok event
unfolding create_event
was_created = refl
