-- ===== src/Controller/Resources/Legacy.antt =====
-- The legacy status field is stable under its own rule.
use text.Mathlib.TextEquality.{eq_iff}
use kpt_resource_group.Base.{◌≡◌, Bool, Bool-cases, inl, inr, not, ◌&&◌, ◌==◌, string_eq}
use kpt_resource_group.Api.{ResourceStatus, not_found, actuation_succeeded, reconcile_succeeded}
use kpt_resource_group.Controller.Resources.{actuation_status_to_legacy}

abbrev pending : ResourceStatus → Bool
pending s = not (s.actuation == "") && not (s.actuation == actuation_succeeded)

abbrev succeeded : ResourceStatus → Bool
succeeded s = s.actuation == actuation_succeeded && s.reconcile == reconcile_succeeded

-- ActuationStatusToLegacy applied to a resource that already has its answer gives that answer again.
pub actuation_status_to_legacy_idem :
    (s : ResourceStatus)
    → actuation_status_to_legacy (record s { status = actuation_status_to_legacy s })
      ≡ actuation_status_to_legacy s
unfolding actuation_status_to_legacy
actuation_status_to_legacy_idem s = elim (Bool-cases (s.status == not_found)) [
  | inl a ↦ rw a
  | inr a ↦ elim (Bool-cases (pending s)) [
    | inl b ↦ rw (a, b)
    | inr b ↦ elim (Bool-cases (succeeded s)) [ inl c ↦ rw (a, b, c) | inr c ↦ rw (a, b, c, a) ]
  ]
]

-- With no actuation the status stays.
pub actuation_status_to_legacy_none :
    (s : ResourceStatus) → s.actuation ≡ "" → actuation_status_to_legacy s ≡ s.status
unfolding actuation_status_to_legacy
actuation_status_to_legacy_none s h = elim (Bool-cases (s.status == not_found)) [
  | inl a ↦ rw (a, (eq_iff s.status not_found).0 a)
  | inr a ↦ rw (a, h)
]
