-- ===== src/Usage.antt =====
-- src/modules/usage/usage.service.ts. Amounts are natural numbers, and so is what a task reports as its
-- usage. A row of `workspace_usage` is found by its workspace, which is unique there, and that stands for
-- its key.
pub mod Totals
pub mod Settling
pub mod Finishing
mod Tests
use manbaa_backend.Base.{
  ℕ, ◌+◌, ◌*◌, String, ◌≡◌, Bool, true, false, not, ◌&&◌, Option, none, some, List, [], ◌∷◌, eqb,
  leb, ltb, ◌==◌, if◌then◌else◌, or_else,
}
use manbaa_backend.Exec.{
  Exec, Failure, conflict, not_found, ◌>>=◌, ◌>>◌, pure, raise, gets, require, modify, guard,
}
use manbaa_backend.Repository.{Repository}
use manbaa_backend.Repository.Listing.{Listing}

pub data UsageDimension : Type 0 where
  workspace_count member_count storage_bytes ai_input_tokens ai_output_tokens : UsageDimension
  ai_cost_usd research_pages image_generations export_bytes : UsageDimension

pub data UsageReservationStatus : Type 0 where
  reserved committed released expired : UsageReservationStatus

abbrev pub dimension_index : UsageDimension → ℕ
dimension_index workspace_count = 0
dimension_index member_count = 1
dimension_index storage_bytes = 2
dimension_index ai_input_tokens = 3
dimension_index ai_output_tokens = 4
dimension_index ai_cost_usd = 5
dimension_index research_pages = 6
dimension_index image_generations = 7
dimension_index export_bytes = 8

unfoldable pub same_dimension : UsageDimension → UsageDimension → Bool
same_dimension a b = eqb (dimension_index a) (dimension_index b)

abbrev pub is_reserved : UsageReservationStatus → Bool
is_reserved reserved = true
is_reserved _ = false

abbrev pub is_committed : UsageReservationStatus → Bool
is_committed committed = true
is_committed _ = false

pub record UsageReservation : Type 0 where
  pub id : String
  pub organization_id : String
  pub workspace_id : String
  pub dimension : UsageDimension
  pub amount : ℕ
  pub actual_amount : Option ℕ
  pub idempotency_key : String
  pub status : UsageReservationStatus
  pub expires_at : ℕ

pub record WorkspaceUsage : Type 0 where
  pub organization_id : String
  pub workspace_id : String
  pub totals : List (UsageDimension × ℕ)

pub record ReserveUsageInput : Type 0 where
  pub organization_id : String
  pub workspace_id : String
  pub dimension : UsageDimension
  pub amount : ℕ
  pub idempotency_key : String
  pub limit : Option ℕ

-- `totals[dimension] ?? 0`
abbrev pub total_of : UsageDimension → List (UsageDimension × ℕ) → ℕ
total_of d [] = 0
total_of d ((e, n) ∷ ts) = let rest = total_of d ts in if same_dimension e d then n else rest

-- `{ ...totals, [dimension]: n }`
abbrev pub with_total : UsageDimension → ℕ → List (UsageDimension × ℕ) → List (UsageDimension × ℕ)
with_total d n [] = (d, n) ∷ []
with_total d n ((e, m) ∷ ts) =
    let rest = with_total d n ts in if same_dimension e d then (e, n) ∷ ts else (e, m) ∷ rest

abbrev pub sum_amounts : List UsageReservation → ℕ
sum_amounts [] = 0
sum_amounts (r ∷ rs) = r.amount + sum_amounts rs

pub record Env : Type 1 where
  pub reservations : Repository UsageReservation
  pub reservation_key : (r : UsageReservation) → reservations.key r ≡ r.id
  pub listing : Listing reservations
  pub usages : Repository WorkspaceUsage
  pub usage_key : (u : WorkspaceUsage) → usages.key u ≡ u.workspace_id

module _ (env : Env) where
  pub record State : Type 0 where
    pub reservations : env.reservations.Store
    pub usages : env.usages.Store

  abbrev pub totals_of : Option WorkspaceUsage → List (UsageDimension × ℕ)
  totals_of none = []
  totals_of (some u) = u.totals

  -- `getUsageSummary`
  abbrev pub get_usage_summary : String → State → List (UsageDimension × ℕ)
  get_usage_summary workspace_id s = totals_of (env.usages.get workspace_id s.usages)

  abbrev pub save_reservation : UsageReservation → Exec State Unit
  save_reservation r =
      modify (λ s. record s { reservations = env.reservations.save r s.reservations })

  abbrev pub save_usage : WorkspaceUsage → Exec State Unit
  save_usage u = modify (λ s. record s { usages = env.usages.save u s.usages })

  -- The amounts that are reserved in a workspace, `COALESCE(SUM(r.amount), 0)`.
  abbrev pub reserved_total : String → UsageDimension → State → ℕ
  reserved_total workspace_id dimension s = sum_amounts (
      env.listing.select
        (λ r.
          r.workspace_id == workspace_id
          && (same_dimension r.dimension dimension && is_reserved r.status))
        s.reservations)

  -- `input.limit !== undefined && used + input.amount > input.limit`, negated
  abbrev pub within_limit : Option ℕ → ℕ → Bool
  within_limit none wanted = true
  within_limit (some limit) wanted = leb wanted limit

  abbrev pub reservation_of : String → ℕ → ReserveUsageInput → UsageReservation
  reservation_of id now input = record {
    id = id;
    organization_id = input.organization_id;
    workspace_id = input.workspace_id;
    dimension = input.dimension;
    amount = input.amount;
    actual_amount = none;
    idempotency_key = input.idempotency_key;
    status = reserved;
    expires_at = now + 30 * 60000;
  }

  -- `id` is the key that the database makes.
  unfoldable pub make_reservation : String → ℕ → ReserveUsageInput → Exec State UsageReservation
  make_reservation id now input = do
    guard (ltb 0 input.amount) (conflict "Usage amount must be positive")
    used ← gets (λ s. total_of input.dimension (get_usage_summary input.workspace_id s))
    open_amount ← gets (reserved_total input.workspace_id input.dimension)
    guard (within_limit input.limit (used + open_amount + input.amount))
        (conflict "Usage limit exceeded")
    let r = reservation_of id now input
    save_reservation r
    pure r

  unfoldable pub reserve_usage : String → ℕ → ReserveUsageInput → Exec State UsageReservation
  reserve_usage id now input = do
    existing ← gets (λ s.
        env.reservations.find_where (λ r. r.idempotency_key == input.idempotency_key)
          s.reservations)
    elim existing [ none ↦ make_reservation id now input | some r ↦ pure r ]

  abbrev pub usage_for : UsageReservation → Option WorkspaceUsage → WorkspaceUsage
  usage_for r (some u) = u
  usage_for r none = record {
    organization_id = r.organization_id;
    workspace_id = r.workspace_id;
    totals = [];
  }

  -- What a commit adds to the totals of the workspace.
  unfoldable pub charge : UsageReservation → ℕ → Exec State Unit
  charge r actual = do
    found ← gets (λ s. env.usages.get r.workspace_id s.usages)
    let u = usage_for r found
    save_usage (record u {
      totals = with_total r.dimension (total_of r.dimension u.totals + actual) u.totals;
    })

  unfoldable pub settle :
      UsageReservation → UsageReservationStatus → ℕ → Exec State UsageReservation
  settle r status actual = do
    let next = record r { status = status; actual_amount = some actual }
    save_reservation next
    if is_committed status then charge next actual else pure tt
    pure next

  unfoldable pub finish : String → UsageReservationStatus → ℕ → Exec State UsageReservation
  finish id status actual = do
    found ← gets (λ s. env.reservations.get id s.reservations)
    r ← require found (not_found "Usage reservation not found")
    if is_reserved r.status then settle r status actual else pure r

  abbrev pub commit_usage : String → ℕ → Exec State UsageReservation
  commit_usage id actual = finish id committed actual

  abbrev pub release_usage : String → Exec State UsageReservation
  release_usage id = finish id released 0

  abbrev pub expire_all : List UsageReservation → env.reservations.Store → env.reservations.Store
  expire_all [] s = s
  expire_all (r ∷ rs) s = expire_all rs (env.reservations.save (record r { status = expired }) s)

  -- `cleanupExpired`: one statement that writes every row it selects.
  unfoldable pub cleanup_expired : ℕ → State → State
  cleanup_expired now s = record s {
    reservations =
        expire_all
          (env.listing.select (λ r. is_reserved r.status && ltb r.expires_at now) s.reservations)
          s.reservations;
  }
