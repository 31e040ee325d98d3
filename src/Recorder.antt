-- ===== src/Recorder.antt =====
-- The recorder of events (pkg/recorder/recorder.go): what it hands to the recorder of Kubernetes, the
-- object left out. The functions `title` and `sprintf` stand for strings.Title, and for the format
-- of a message with its arguments.
use k8s_dns_manager.Prelude.{
  true, false, ◌≡◌, refl, ◌⊎◌, inl, inr, is_some, Bool, Option, none, some, List, [], ◌∷◌, ◌++◌,
  Text, codes, Error, not, if◌then◌else◌,
}
use k8s_dns_manager.Errors.{error_text}

-- corev1.EventTypeNormal and corev1.EventTypeWarning
pub data EventType : Type 0 where
  normal warning : EventType

pub record Event : Type 0 where
  pub event_type : EventType
  pub reason : Text
  pub message : Text

module _ (title : Text → Text) where
  pub event : Text → Text → Event
  event reason message = record { event_type = normal; reason = title reason; message = message }

  pub warn : Text → Text → Event
  warn reason message = record { event_type = warning; reason = title reason; message = message }

  pub eventf : (Text → List Text → Text) → Text → Text → List Text → Event
  unfolding event
  eventf sprintf reason message args = event reason (sprintf message args)

  pub warnf : (Text → List Text → Text) → Text → Text → List Text → Event
  unfolding warn
  warnf sprintf reason message args = warn reason (sprintf message args)

  pub emit_event : Text → Option Error → Bool → List Event
  unfolding event warn
  emit_event op_name none ignore_success =
      if not ignore_success
      then event (op_name ++ codes "Success") (op_name ++ codes " success") ∷ []
      else []
  emit_event op_name (some e) ignore_success = warn (op_name ++ codes "Failure") (error_text e) ∷ []

-- At most one event is emitted, and it is a warning exactly where there is an error.
pub emit_event_lem :
    (title : Text → Text) (op_name : Text) (e : Option Error) (ignore_success : Bool)
    → (emit_event title op_name e ignore_success ≡ [])
      ⊎ ((v : Event) × (emit_event title op_name e ignore_success ≡ v ∷ [])
          × (v.event_type ≡ (if is_some e then warning else normal)))
unfolding emit_event event warn
emit_event_lem title op_name none true = inl refl
emit_event_lem title op_name none false = inr (_, refl, refl)
emit_event_lem title op_name (some e) ignore_success = inr (_, refl, refl)
