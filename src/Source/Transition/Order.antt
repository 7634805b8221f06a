-- ===== src/Source/Transition/Order.antt =====
-- The order in which a version moves through its processing.
use manbaa_backend.Base.{
  String, ◌≡◌, refl, ◌≢◌, ◌↔◌, true, false, Option, none, some, arith, subst, sym, ◌∙◌, eq_iff,
  ◌==◌,
}
use manbaa_backend.Source.Types.{
  SourceStatus, pending, processing, extracted, indexed, failed, Source, SourceVersion,
  SourceLifecycleKind,
}
use manbaa_backend.Source.Transition.{
  TransitionOutcome, changed, ignored, retry, Applied, status_for, verdict, annotate,
  apply_transition,
}

-- The next status that an event of this kind brings: one step up, or failure before the end.
pub data Advances : SourceStatus → SourceLifecycleKind → Type 0 where
  begin : Advances pending SourceLifecycleKind.processing
  extract : Advances processing SourceLifecycleKind.extracted
  index : Advances extracted SourceLifecycleKind.indexed
  fail_pending : Advances pending SourceLifecycleKind.failed
  fail_processing : Advances processing SourceLifecycleKind.failed
  fail_extracted : Advances extracted SourceLifecycleKind.failed

-- The event's status is two or three steps up.
pub data IsEarly : SourceStatus → SourceLifecycleKind → Type 0 where
  extract_pending : IsEarly pending SourceLifecycleKind.extracted
  index_pending : IsEarly pending SourceLifecycleKind.indexed
  index_processing : IsEarly processing SourceLifecycleKind.indexed

-- The version is there already or further, or has failed or ended.
pub data IsStale : SourceStatus → SourceLifecycleKind → Type 0 where
  after_failure : {kind : SourceLifecycleKind} → IsStale failed kind
  after_index : {kind : SourceLifecycleKind} → IsStale indexed kind
  again_processing : IsStale processing SourceLifecycleKind.processing
  again_extracted : IsStale extracted SourceLifecycleKind.extracted
  back_to_processing : IsStale extracted SourceLifecycleKind.processing

ruleset advances = (begin, extract, index, fail_pending, fail_processing, fail_extracted)

ruleset early = (extract_pending, index_pending, index_processing)

ruleset stale = (after_failure, after_index, again_processing, again_extracted, back_to_processing)

abbrev Says : SourceStatus → SourceLifecycleKind → TransitionOutcome → Type 0
Says current kind changed = Advances current kind
Says current kind retry = IsEarly current kind
Says current kind ignored = IsStale current kind

verdict-Says :
    (kind : SourceLifecycleKind) (current : SourceStatus) → Says current kind (verdict kind current)
unfolding verdict
verdict-Says SourceLifecycleKind.processing pending = search (advances, early, stale)
verdict-Says SourceLifecycleKind.extracted pending = search (advances, early, stale)
verdict-Says SourceLifecycleKind.indexed pending = search (advances, early, stale)
verdict-Says SourceLifecycleKind.failed pending = search (advances, early, stale)
verdict-Says _ _ = search (advances, early, stale)

Advances-verdict :
    {kind : SourceLifecycleKind} {current : SourceStatus}
    → Advances current kind
    → verdict kind current ≡ changed
unfolding verdict
Advances-verdict begin = refl
Advances-verdict extract = refl
Advances-verdict index = refl
Advances-verdict fail_pending = refl
Advances-verdict fail_processing = refl
Advances-verdict fail_extracted = refl

IsEarly-verdict :
    {kind : SourceLifecycleKind} {current : SourceStatus}
    → IsEarly current kind
    → verdict kind current ≡ retry
unfolding verdict
IsEarly-verdict extract_pending = refl
IsEarly-verdict index_pending = refl
IsEarly-verdict index_processing = refl

module _ (kind : SourceLifecycleKind) (source : Source) (version : SourceVersion) (at : String)
    (code message : Option String) where
  abbrev applied : Applied
  applied = apply_transition kind source version at code message

  match_current :
      (id : Option String)
      → (elim id [ none ↦ false | some i ↦ i == version.id ]) ≡ true
      → id ≡ some version.id
  match_current none h = cc
  match_current (some i) h = ground (arith, eq_iff i version.id)

  outcome_current :
      applied.outcome ≢ ignored
      → (source.current_version_id ≡ some version.id)
        × (applied.outcome ≡ verdict kind version.processing_status)
  unfolding apply_transition
  outcome_current h = ground (arith, match_current source.current_version_id)

  current_outcome :
      source.current_version_id ≡ some version.id
      → applied.outcome ≡ verdict kind version.processing_status
  unfolding apply_transition
  current_outcome e = ground (arith, eq_iff version.id version.id)

  -- An event changes the rows exactly if the version is the source's current one and its status is
  -- followed by the event's.
  pub changed_iff_Advances :
      (applied.outcome ≡ changed)
      ↔ ((source.current_version_id ≡ some version.id) × Advances version.processing_status kind)
  changed_iff_Advances = (
    λ h.
        let (current, e) = outcome_current (rw h (λ x. cc)) in
        (
          current,
          subst (Says version.processing_status kind) (sym e ∙ h)
              (verdict-Says kind version.processing_status),
        ),
    λ (current, a). current_outcome current ∙ Advances-verdict a,
  )

  -- An event is put back exactly if the version is the source's current one and the event's status is
  -- more than one step up from its own.
  pub retry_iff_IsEarly :
      (applied.outcome ≡ retry)
      ↔ ((source.current_version_id ≡ some version.id) × IsEarly version.processing_status kind)
  retry_iff_IsEarly = (
    λ h.
        let (current, e) = outcome_current (rw h (λ x. cc)) in
        (
          current,
          subst (Says version.processing_status kind) (sym e ∙ h)
              (verdict-Says kind version.processing_status),
        ),
    λ (current, a). current_outcome current ∙ IsEarly-verdict a,
  )

annotate_keeps :
    (kind : SourceLifecycleKind) (timestamp : String) (code message : Option String)
    (v : SourceVersion)
    → ((annotate kind timestamp code message v).id ≡ v.id)
      × ((annotate kind timestamp code message v).processing_status ≡ v.processing_status)
unfolding annotate
annotate_keeps SourceLifecycleKind.processing timestamp code message v = (refl, refl)
annotate_keeps _ timestamp code message v = (refl, refl)

pub changed_version :
    (kind : SourceLifecycleKind) (source : Source) (v : SourceVersion) (at : String)
    (code message : Option String)
    → (apply_transition kind source v at code message).outcome ≡ changed
    → ((apply_transition kind source v at code message).version.id ≡ v.id)
      × ((apply_transition kind source v at code message).version.processing_status
          ≡ status_for kind)
unfolding apply_transition
changed_version kind source v at code message h =
    ground (
      arith,
      annotate_keeps kind at code message (record v { processing_status = status_for kind }),
    )
