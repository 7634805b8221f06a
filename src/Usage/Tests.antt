-- ===== src/Usage/Tests.antt =====
-- Two reservations of one workspace, and the theorem at a concrete input.
use manbaa_backend.Base.{◌≡◌, refl, none, [], ◌∷◌}
use manbaa_backend.Exec.{ok}
use manbaa_backend.Repository.Assoc.{assoc}
use manbaa_backend.Repository.Listing.{listing}
use manbaa_backend.Usage.{
  UsageReservation, WorkspaceUsage, ai_input_tokens, reserved, released, committed, Env, State,
  finish, settle, charge, reserve_usage, make_reservation, same_dimension,
}
use manbaa_backend.Usage.Settling.{settled}
use manbaa_backend.Usage.Finishing.{finish_again}

abbrev env : Env
env = record {
  reservations = assoc (λ (r : UsageReservation). r.id);
  reservation_key = λ r. refl;
  listing = listing (λ (r : UsageReservation). r.id);
  usages = assoc (λ (u : WorkspaceUsage). u.workspace_id);
  usage_key = λ u. refl;
}

abbrev reservation : UsageReservation
reservation = record {
  id = "r1";
  organization_id = "o1";
  workspace_id = "w1";
  dimension = ai_input_tokens;
  amount = 1;
  actual_amount = none;
  idempotency_key = "k1";
  status = reserved;
  expires_at = 1800000;
}

abbrev start : State env
start = record { reservations = reservation ∷ []; usages = [] }

abbrev after : State env
after = record {
  reservations = settled env reservation committed 7 ∷ reservation ∷ [];
  usages =
      record { organization_id = "o1"; workspace_id = "w1"; totals = (ai_input_tokens, 7) ∷ [] }
      ∷ [];
}

committed_once :
    finish env "r1" committed 7 start ≡ (ok (settled env reservation committed 7), after)
unfolding finish settle charge
committed_once = refl

reserved_first :
    reserve_usage env "r1" 0
      record {
        organization_id = "o1";
        workspace_id = "w1";
        dimension = ai_input_tokens;
        amount = 1;
        idempotency_key = "k1";
        limit = none;
      }
      (record { reservations = []; usages = [] })
    ≡ (ok reservation, start)
unfolding reserve_usage make_reservation same_dimension
reserved_first = refl

finish_again_example :
    finish env "r1" released 0 after ≡ (ok (settled env reservation committed 7), after)
finish_again_example =
    finish_again env "r1" committed released 7 0 (settled env reservation committed 7) start after
      refl committed_once
