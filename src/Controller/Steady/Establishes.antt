-- ===== src/Controller/Steady/Establishes.antt =====
-- What a successful run makes true: by the read, when it agrees with what is rendered, or by the
-- write, and the calls after it leave it so.
use ipmaze.Base.{
  arith, ◌≡◌, refl, ◌⊎◌, String, Option, none, some, List, ok, inl, inr, Result-cases, Bool-cases,
}
use ipmaze.Api.{CidrPolicy}
use ipmaze.Networking.{NetworkPolicy}
use ipmaze.Libs.{Libs}
use ipmaze.World.{World}
use ipmaze.Validation.{ValidatedPolicy}
use ipmaze.Status.{reconciled, no_change}
use ipmaze.Controller.{settle, Next, classify_outcome, managed_policy_matches, apply_outcome}
use ipmaze.Controller.Managed.{get_managed_network_policy, apply_managed_network_policy}
use ipmaze.Controller.Requeue.{schedule_requeue_after}
use ipmaze.Controller.Steady.{IsQuiet, patch_status_for_outcome-Holds, publish_outcome_event-Holds}

module _ (L : Libs) (W : World L) where
  open L use {OwnerReference}
  open W use {State}

  pub outcome_cases :
      (existing : Option (NetworkPolicy OwnerReference)) (np : NetworkPolicy OwnerReference)
      (observed : List String)
      → (classify_outcome L W existing np observed ≡ reconciled observed)
        ⊎ (classify_outcome L W existing np observed ≡ no_change observed)
  unfolding classify_outcome
  outcome_cases none np observed = inl refl
  outcome_cases (some current) np observed =
      elim (Bool-cases (managed_policy_matches L W current np)) [
        | inl same ↦ inr (rw same)
        | inr other ↦ inl (rw other)
      ]

  module _ (I : State → Type 0) where
    -- The read has found an object that agrees with the rendered one.
    abbrev pub ByRead :
        CidrPolicy OwnerReference → String → NetworkPolicy OwnerReference → List String → Type 0
    ByRead policy n np observed =
        (s : State) (r : Option (NetworkPolicy OwnerReference))
        → (get_managed_network_policy L W n policy "Reconcile" s).0 ≡ ok r
        → classify_outcome L W r np observed ≡ no_change observed
        → I (get_managed_network_policy L W n policy "Reconcile" s).1

    abbrev pub ByWrite : String → NetworkPolicy OwnerReference → Type 0
    ByWrite n np =
        (s : State) (u : Unit {0})
        → (apply_managed_network_policy L W n np s).0 ≡ ok u
        → I (apply_managed_network_policy L W n np s).1

    pub settle-establishes :
        (policy : CidrPolicy OwnerReference) (v : ValidatedPolicy L)
        (np : NetworkPolicy OwnerReference) (observed : List String) (n : String) (s : State)
        (next : Next)
        → IsQuiet L W I
        → ByRead policy n np observed
        → ByWrite n np
        → (settle L W policy (v, np, observed, n) s).0 ≡ ok next
        → I (settle L W policy (v, np, observed, n) s).1
    unfolding settle apply_outcome schedule_requeue_after
    settle-establishes policy v np observed n s next Q read write h =
        let got = get_managed_network_policy L W n policy "Reconcile" s in
        let patched = patch_status_for_outcome-Holds L W I Q n policy in
        let told = publish_outcome_event-Holds L W I Q policy (some np) in
        elim (Result-cases (got.0)) [
          | inr (x, e) ↦ absurd (ground arith)
          | inl (r, e) ↦ elim (outcome_cases r np observed) [
            | inl changed ↦ grind (arith, write, patched, told)
            | inr same ↦ let there = read s r e same in grind (arith, patched, told)
          ]
        ]
