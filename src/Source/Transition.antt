-- ===== src/Source/Transition.antt =====
-- `applyTransition`, `statusFor` and `sourceStatusFor` of
-- src/modules/sources/source-lifecycle.service.ts.
pub mod Order
use manbaa_backend.Base.{
  slice, ℕ, zero, suc, ◌≡◌, refl, ◌⊎◌, inl, inr, String, Bool, true, false, Option, none, some, ◌+◌,
  ◌||◌, ltb, eqb, or_else, ◌==◌, if◌then◌else◌,
}
use manbaa_backend.Source.Types.{
  SourceStatus, pending, processing, extracted, indexed, failed, Source, SourceVersion,
  SourceLifecycleKind,
}

-- `TransitionOutcome`
pub data TransitionOutcome : Type 0 where
  changed ignored retry : TransitionOutcome

-- `transition === "retry"`
abbrev pub is_retry : TransitionOutcome → Bool
is_retry retry = true
is_retry _ = false

-- The outcome, and the two rows as they were mutated.
pub record Applied : Type 0 where
  pub outcome : TransitionOutcome
  pub source : Source
  pub version : SourceVersion

-- `statusFor` and `sourceStatusFor`
abbrev pub status_for : SourceLifecycleKind → SourceStatus
status_for SourceLifecycleKind.processing = processing
status_for SourceLifecycleKind.extracted = extracted
status_for SourceLifecycleKind.indexed = indexed
status_for SourceLifecycleKind.failed = failed

-- One more than `order.indexOf(status)`, which is -1 for `FAILED`.
abbrev pub order_index : SourceStatus → ℕ
order_index pending = 1
order_index processing = 2
order_index extracted = 3
order_index indexed = 4
order_index failed = 0

-- `===`
abbrev pub same_status : SourceStatus → SourceStatus → Bool
same_status a b = eqb (order_index a) (order_index b)

-- The tests on the status before the rows are written; `changed` if they all pass.
judge : SourceLifecycleKind → SourceStatus → TransitionOutcome
judge SourceLifecycleKind.failed current =
    if same_status current failed || same_status current indexed then ignored else changed
judge kind current =
    if same_status current failed
    then ignored
    else if ltb (order_index (status_for kind)) (order_index current)
    then ignored
    else if ltb (order_index current + 1) (order_index (status_for kind))
    then retry
    else changed

unfoldable pub verdict : SourceLifecycleKind → SourceStatus → TransitionOutcome
unfolding judge
verdict kind current = if same_status current (status_for kind) then ignored else judge kind current

-- What the kind writes besides the status.
annotate :
    SourceLifecycleKind → String → Option String → Option String → SourceVersion → SourceVersion
annotate SourceLifecycleKind.processing timestamp code message v = v
annotate SourceLifecycleKind.extracted timestamp code message v = record v {
  extracted_at = some timestamp;
}
annotate SourceLifecycleKind.indexed timestamp code message v = record v {
  indexed_at = some timestamp;
}
annotate SourceLifecycleKind.failed timestamp code message v = record v {
  failure_code = some (slice 100 (or_else code "SOURCE_PROCESSING_FAILED"));
  failure_message = some (slice 1000 (or_else message "Source processing failed"));
}

write :
    TransitionOutcome
    → SourceLifecycleKind
    → Source
    → SourceVersion
    → String
    → Option String
    → Option String
    → Applied
unfolding annotate
write changed kind source version timestamp code message = record {
  outcome = changed;
  source = record source { status = status_for kind };
  version =
      annotate kind timestamp code message (record version { processing_status = status_for kind });
}
write outcome kind source version timestamp code message = record {
  outcome = outcome;
  source = source;
  version = version;
}

abbrev is_current : Source → SourceVersion → Bool
is_current source version = elim source.current_version_id [
  | none ↦ false
  | some id ↦ id == version.id
]

-- The event's time, error code and error message are what it reads of the event.
unfoldable pub apply_transition :
    SourceLifecycleKind → Source → SourceVersion → String → Option String → Option String → Applied
unfolding write
apply_transition kind source version timestamp code message =
    let outcome =
      if is_current source version then verdict kind version.processing_status else ignored in
    write outcome kind source version timestamp code message

pub TransitionOutcome-cases : (o : TransitionOutcome) → (o ≡ changed) ⊎ (o ≡ ignored) ⊎ (o ≡ retry)
TransitionOutcome-cases changed = inl refl
TransitionOutcome-cases ignored = inr (inl refl)
TransitionOutcome-cases retry = inr (inr refl)
