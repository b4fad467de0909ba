-- ===== src/Status/Outcome.antt =====
-- The status of a CIDRPolicy after any sequence of outcomes.
use ipmaze.Base.{String, ◌≡◌, refl, Option, none, some, List, [], ◌∷◌, unwrap_or, map_option}
use ipmaze.Api.{CidrPolicy, CidrPolicyStatus}
use ipmaze.Libs.{Libs}
use ipmaze.World.{World}
use ipmaze.Status.{
  ReconcileOutcome, reconciled, no_change, failed, default_status, stage_message, succeeded,
  status_for_outcome,
}

module _ (L : Libs) (W : World L) where
  open L use {OwnerReference, DateTime, to_rfc3339}

  -- The status of the policy, as `unwrap_or_default` reads it.
  abbrev pub status_of : CidrPolicy OwnerReference → CidrPolicyStatus
  status_of policy = unwrap_or policy.status default_status

  -- The policy after the outcomes, of which the latest is the first.
  unfoldable pub after :
      CidrPolicy OwnerReference → List (DateTime × ReconcileOutcome) → CidrPolicy OwnerReference
  after policy [] = policy
  after policy ((time, outcome) ∷ earlier) =
      let before = after policy earlier in
      record before { status = some (status_for_outcome L W time before outcome) }

  -- The latest success: its time and the CIDRs that it observed.
  unfoldable pub latest_success :
      List (DateTime × ReconcileOutcome) → Option (DateTime × List String)
  latest_success [] = none
  latest_success ((time, reconciled observed) ∷ earlier) = some (time, observed)
  latest_success ((time, no_change observed) ∷ earlier) = some (time, observed)
  latest_success ((time, failed stage message) ∷ earlier) = latest_success earlier

  -- The text of the latest outcome, if that is a failure.
  unfoldable pub latest_error : Option String → List (DateTime × ReconcileOutcome) → Option String
  latest_error initial [] = initial
  latest_error initial ((time, reconciled observed) ∷ earlier) = none
  latest_error initial ((time, no_change observed) ∷ earlier) = none
  latest_error initial ((time, failed stage message) ∷ earlier) = some (stage_message stage message)

  -- After any sequence of outcomes, the status tells the time and the CIDRs of the latest success,
  -- or the ones from before if there is none, however many failures have followed it; its error
  -- is the one of the latest outcome, and absent if that is a success.
  pub after-status :
      (policy : CidrPolicy OwnerReference) (outcomes : List (DateTime × ReconcileOutcome))
      → let status = status_of (after policy outcomes) in
        (status.last_successful_resolution_time
          ≡ unwrap_or
              (map_option (λ x. some (to_rfc3339 x.0)) (latest_success outcomes))
              (status_of policy).last_successful_resolution_time)
        × (status.last_observed_cidrs
            ≡ unwrap_or
                (map_option (λ x. x.1) (latest_success outcomes))
                (status_of policy).last_observed_cidrs)
        × (status.last_reconciliation_error
            ≡ latest_error (status_of policy).last_reconciliation_error outcomes)
  unfolding after latest_success latest_error status_for_outcome succeeded
  after-status policy [] = (refl, refl, refl)
  after-status policy ((time, reconciled observed) ∷ earlier) = (refl, refl, refl)
  after-status policy ((time, no_change observed) ∷ earlier) = (refl, refl, refl)
  after-status policy ((time, failed stage message) ∷ earlier) =
      let (a, b, _) = after-status policy earlier in (a, b, refl)
