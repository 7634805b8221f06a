-- ===== src/Source/Lifecycle.antt =====
-- `handle` of src/modules/sources/source-lifecycle.service.ts: screening an event, the transaction,
-- and the realtime notices after it.
pub mod Once
pub mod Tenancy
pub mod Secrets
mod Tests
use manbaa_backend.Base.{
  ℕ, String, Bool, true, false, not, ◌&&◌, ◌||◌, Option, none, some, List, [], ◌∷◌, ◌++◌, any,
  is_some, leb, ◌≡◌, keep, ◌==◌, if◌then◌else◌,
}
use manbaa_backend.Exec.{
  Result, ok, err, Exec, error, ◌>>=◌, ◌>>◌, pure, raise, gets, require, lift, modify, guard,
}
use manbaa_backend.Repository.{Repository, find_one}
use manbaa_backend.Json.{Json, str, Fields, field, end, get, truthy, text}
use manbaa_backend.Messaging.DomainEvent.{DomainEvent, assert_domain_event}
use manbaa_backend.Source.Types.{
  Source, SourceVersion, SourceLifecycleEvent, SourceLifecycleKind, lifecycle_subject, action,
  LifecycleScope, Claims, Notice, to_room, to_user,
}
use manbaa_backend.Source.Payload.{has, assert_uuid, assert_payload}
use manbaa_backend.Source.Transition.{
  TransitionOutcome, changed, ignored, retry, is_retry, Applied, apply_transition,
}

-- The tables and what belongs to other packages or services: `uuid.validate`, `Date.parse`, the
-- verification of a token for the audience `nestjs-platform`, and the length of a text.
pub record Env : Type 1 where
  pub receipts : Repository SourceLifecycleEvent
  pub receipt_key : (r : SourceLifecycleEvent) → receipts.key r ≡ r.event_id
  pub sources : Repository Source
  pub source_key : (r : Source) → sources.key r ≡ r.id
  pub versions : Repository SourceVersion
  pub version_key : (r : SourceVersion) → versions.key r ≡ r.id
  pub is_uuid : String → Bool
  pub date_parses : String → Bool
  pub verify : String → Result Claims
  pub text_length : String → ℕ

-- An event that passed the checks of its own shape.
pub record Screened : Type 0 where
  pub event : DomainEvent
  pub scope : LifecycleScope
  pub token : String

-- A JSON text, if it is one.
abbrev pub as_text : Option Json → Option String
as_text (some (str s)) = some s
as_text _ = none

abbrev token_of : Fields → String
token_of payload = elim (as_text (get "internalToken" payload)) [ none ↦ "" | some t ↦ t ]

-- `{ internalToken, ...safePayload }`: every property but the token.
unfoldable pub safe_payload : Fields → Fields
safe_payload end = end
safe_payload (field k v fs) =
    let rest = safe_payload fs in if k == "internalToken" then rest else field k v rest

-- `receipt.x !== scope.x || …`, negated.
pub same_scope : SourceLifecycleEvent → LifecycleScope → Bool
same_scope receipt scope =
    receipt.event_type == scope.event_type
    && (receipt.organization_id == scope.organization_id
        && (receipt.workspace_id == scope.workspace_id
            && (receipt.source_id == scope.source_id
                && receipt.source_version_id == scope.source_version_id)))

-- The claims fit the event.
pub authorizes : Claims → SourceLifecycleKind → DomainEvent → LifecycleScope → Bool
authorizes claims kind event scope =
    claims.service == "document-worker"
    && (claims.organization_id == scope.organization_id
        && ((elim claims.workspace_id [ none ↦ false | some w ↦ w == scope.workspace_id ])
            && (claims.correlation_id == event.correlation_id
                && has claims.allowed_actions (action kind))))

module _ (env : Env) where
  open env use {receipts, sources, versions, is_uuid, date_parses, verify, text_length}

  -- The three tables, and the realtime messages that were sent, in their order.
  pub record State : Type 0 where
    pub receipts : env.receipts.Store
    pub sources : env.sources.Store
    pub versions : env.versions.Store
    pub notices : List Notice

  -- The checks of `handle` before it reads anything.
  pub screen : SourceLifecycleKind → Json → Exec State Screened
  screen kind value = do
    event ← lift (assert_domain_event date_parses value)
    guard (event.event_type == lifecycle_subject kind)
        (error "Source lifecycle event type mismatch")
    guard (elim event.workspace_id [ none ↦ false | some w ↦ truthy w ])
        (error "Source lifecycle event requires workspace scope")
    lift (assert_uuid is_uuid (some (str event.event_id)) "Source lifecycle eventId must be a UUID")
    lift (
        assert_uuid is_uuid (some (str event.organization_id))
          "Source lifecycle organizationId must be a UUID")
    workspace_id ←
        lift (assert_uuid is_uuid event.workspace_id "Source lifecycle workspaceId must be a UUID")
    source_id ← lift (
        assert_uuid is_uuid (get "sourceId" event.payload)
          "Source lifecycle sourceId must be a UUID")
    version_id ← lift (
        assert_uuid is_uuid (get "sourceVersionId" event.payload)
          "Source lifecycle sourceVersionId must be a UUID")
    lift (assert_payload is_uuid event.payload)
    pure (record {
      event = event;
      scope = record {
        event_id = event.event_id;
        event_type = event.event_type;
        organization_id = event.organization_id;
        workspace_id = workspace_id;
        source_id = source_id;
        source_version_id = version_id;
      };
      token = token_of event.payload;
    })

  -- `assertReceiptScope`
  assert_receipt_scope : SourceLifecycleEvent → LifecycleScope → Exec State Unit
  unfolding same_scope
  assert_receipt_scope receipt scope =
      guard (same_scope receipt scope) (error "Source lifecycle event ID scope mismatch")

  -- The token's `jti`, after the authorization of the event.
  pub authorize : SourceLifecycleKind → Screened → Exec State String
  unfolding authorizes
  authorize kind job = do
    claims ← lift (verify job.token)
    guard (authorizes claims kind job.event job.scope)
        (error "Source lifecycle event authorization mismatch")
    jti ← require claims.jti (error "Source lifecycle token jti is invalid")
    guard (not (jti == "") && leb (text_length jti) 255)
        (error "Source lifecycle token jti is invalid")
    pure jti

  abbrev pub receipt_of : LifecycleScope → String → SourceLifecycleEvent
  receipt_of scope jti = record {
    event_id = scope.event_id;
    event_type = scope.event_type;
    organization_id = scope.organization_id;
    workspace_id = scope.workspace_id;
    source_id = scope.source_id;
    source_version_id = scope.source_version_id;
    token_jti = jti;
  }

  -- The write of the receipt fails if its token was used for another receipt: the column is unique.
  save_receipt : SourceLifecycleEvent → Exec State Unit
  save_receipt receipt s =
      if is_some (env.receipts.find_where (λ r. r.token_jti == receipt.token_jti) s.receipts)
      then (err (error "duplicate key value violates unique constraint"), s)
      else (ok tt, record s { receipts = env.receipts.save receipt s.receipts })

  -- `if (changed) { save(version); save(source) }`
  save_rows : TransitionOutcome → Applied → Exec State (Option Source)
  save_rows changed result s = (
    ok (some result.source),
    record s {
      versions = env.versions.save result.version s.versions;
      sources = env.sources.save result.source s.sources;
    },
  )
  save_rows _ result s = (ok none, s)

  -- The locked rows, if both are in the scope of the event.
  pub find_source : LifecycleScope → State → Option Source
  find_source scope s =
      find_one env.sources scope.source_id
        (λ r.
          r.organization_id == scope.organization_id
          && (r.workspace_id == scope.workspace_id && not (is_some r.deleted_at)))
        s.sources

  pub find_version : LifecycleScope → State → Option SourceVersion
  find_version scope s =
      find_one env.versions scope.source_version_id
        (λ r.
          r.source_id == scope.source_id
          && (r.organization_id == scope.organization_id && r.workspace_id == scope.workspace_id))
        s.versions

  abbrev pub result_of : SourceLifecycleKind → Screened → Source → SourceVersion → Applied
  result_of kind job source version =
      apply_transition kind source version job.event.timestamp
        (as_text (get "errorCode" job.event.payload))
        (as_text (get "errorMessage" job.event.payload))

  -- What the transaction does with the two locked rows.
  pub settle :
      SourceLifecycleKind → Screened → String → Source → SourceVersion → Exec State (Option Source)
  unfolding save_receipt save_rows
  settle kind job jti source version = do
    let result = result_of kind job source version
    guard (not (is_retry result.outcome))
        (error "Source lifecycle event arrived before its prerequisite")
    save_receipt (receipt_of job.scope jti)
    save_rows result.outcome result

  -- The transaction of `handle`.
  pub commit : SourceLifecycleKind → Screened → String → Exec State (Option Source)
  unfolding assert_receipt_scope
  commit kind job jti = do
    raced ← gets (λ s. env.receipts.get job.scope.event_id s.receipts)
    source ← gets (find_source job.scope)
    version ← gets (find_version job.scope)
    elim raced [
      | some receipt ↦ (do assert_receipt_scope receipt job.scope; pure none)
      | none ↦ elim source [
        | none ↦ pure none
        | some src ↦ elim version [ none ↦ pure none | some ver ↦ settle kind job jti src ver ]
      ]
    ]

  -- The two realtime messages: to the room of the workspace, and to the user who created the source.
  notify : SourceLifecycleKind → Screened → Option Source → Exec State Unit
  notify kind job none = pure tt
  notify kind job (some source) =
      let payload = safe_payload job.event.payload in
      let correlation = job.event.correlation_id in
      modify λ s. record s {
        notices =
            (s.notices ++ to_room job.scope.workspace_id kind payload correlation ∷ [])
            ++ to_user source.created_by kind payload correlation ∷ [];
      }

  -- `existing` was read before the transaction: its scope is compared and nothing else is done.
  -- `others` is what other handlers do between that read and the transaction.
  pub handle : (State → State) → SourceLifecycleKind → Json → Exec State Unit
  unfolding assert_receipt_scope notify
  handle others kind value = do
    job ← screen kind value
    existing ← gets (λ s. env.receipts.get job.scope.event_id s.receipts)
    elim existing [
      | some receipt ↦ assert_receipt_scope receipt job.scope
      | none ↦ (do
        jti ← authorize kind job
        modify others
        outcome ← commit kind job jti
        notify kind job outcome)
    ]
