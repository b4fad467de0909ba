-- ===== src/Controller/Runs.antt =====
-- Runs of the controller: any sequence of reconciliations, of CIDRPolicies that are in use or being
-- deleted, and of failure reports, each with whatever outcome.
use ipmaze.Base.{
  ℕ, String, string_dec, option_dec, string_eq, false, ◌≡◌, ◌≢◌, ◌⊎◌, sym, ap, ◌∙◌, none, some,
  List, [], ◌∷◌, All, inl, inr, arith,
}
use ipmaze.Api.{CidrPolicy, managed_network_policy_name}
use ipmaze.Networking.{NetworkPolicy}
use ipmaze.Libs.{Libs}
use ipmaze.World.{World, EventType}
use ipmaze.Status.{ReconcileStage, failed, patch_status_for_outcome, stage_message}
use ipmaze.NetPol.{is_managed_network_policy_for}
use ipmaze.Controller.{reconcile, error_policy, handle_reconcile_failure}
use ipmaze.Controller.Cluster.{Cluster}
use ipmaze.Controller.Cluster.Keeps.{
  Keeps, publish_policy_event-Keeps, patch_status_for_outcome-Keeps,
}
use ipmaze.Controller.Isolation.{reconcile_elsewhere}
use ipmaze.Controller.Collision.{reconcile_foreign}
use ipmaze.Controller.Errors.{ReconcileError}
use ipmaze.Controller.Managed.{publish_policy_event}

module _ (L : Libs) (W : World L) where
  open L use {OwnerReference}
  open W use {State}

  -- One step is a call of the reconciler, or the task that `error_policy` spawns.
  pub data Step : CidrPolicy OwnerReference → State → State → Type 0 where
    reconciles :
        (policy : CidrPolicy OwnerReference) (s : State)
        → Step policy s ((reconcile L W policy s).1)
    reports :
        (delay : ℕ) (policy : CidrPolicy OwnerReference) (error : ReconcileError L W) (s : State)
        → Step policy s (((error_policy L W delay policy error).1 s).1)

  -- A run, with the CIDRPolicy of each of the controller's steps. Between these others act on the
  -- outside, by `Others`.
  pub data Run (Others : State → State → Type 0)
      : List (CidrPolicy OwnerReference) → State → State → Type 0 where
    stop : (s : State) → Run Others [] s s
    step :
        (policy : CidrPolicy OwnerReference) (policies : List (CidrPolicy OwnerReference))
        (s s₁ s' : State)
        → Step policy s s₁
        → Run Others policies s₁ s'
        → Run Others (policy ∷ policies) s s'
    others :
        (policies : List (CidrPolicy OwnerReference)) (s s₁ s' : State)
        → Others s s₁
        → Run Others policies s₁ s'
        → Run Others policies s s'

module _ (L : Libs) (W : World L) (C : Cluster L W) where
  open L use {OwnerReference}
  open W use {State, namespace}
  open C use {netpol_at}

  handle_reconcile_failure-Keeps :
      (policy : CidrPolicy OwnerReference) (stage : ReconcileStage) (message : String)
      → Keeps L W C (λ _ _. Unit) (handle_reconcile_failure L W policy stage message)
  unfolding handle_reconcile_failure
  handle_reconcile_failure-Keeps policy stage message s ns name inside =
      let patched : (n : String)
          → netpol_at ((patch_status_for_outcome L W n policy (failed stage message) s).1) ns name
            ≡ netpol_at s ns name =
        λ n.
          patch_status_for_outcome-Keeps L W C (λ _ _. Unit) n policy (failed stage message) s ns
            name tt in
      let told : (s₁ : State)
          → netpol_at
              ((publish_policy_event L W policy EventType.warning "ReconcileFailed" "Reconcile"
                (some (stage_message stage message)) none s₁).1)
              ns name
            ≡ netpol_at s₁ ns name =
        λ s₁.
          publish_policy_event-Keeps L W C (λ _ _. Unit) policy EventType.warning "ReconcileFailed"
            "Reconcile" (some (stage_message stage message)) none s₁ ns name tt in
      grind (arith, patched, told)

  -- An object is none of the policy's: it is elsewhere, or it does not carry the policy's marks.
  abbrev pub IsSpared :
      String → String → NetworkPolicy OwnerReference → CidrPolicy OwnerReference → Type 0
  IsSpared ns name np policy =
      (namespace policy ≢ some ns)
      ⊎ ((name ≢ managed_network_policy_name policy)
          ⊎ (is_managed_network_policy_for L W policy np ≡ false))

  spares_other_namespace :
      (policy : CidrPolicy OwnerReference) (s : State) (ns name : String)
      → namespace policy ≢ some ns
      → netpol_at ((reconcile L W policy s).1) ns name ≡ netpol_at s ns name
  spares_other_namespace policy s ns name other =
      reconcile_elsewhere L W C policy s ns name
        (λ n here. inl (λ e. other (here ∙ ap some (sym e))))

  spares_other_name :
      (policy : CidrPolicy OwnerReference) (s : State) (ns name : String)
      → name ≢ managed_network_policy_name policy
      → netpol_at ((reconcile L W policy s).1) ns name ≡ netpol_at s ns name
  spares_other_name policy s ns name other =
      reconcile_elsewhere L W C policy s ns name (λ n here. inr other)

  spares_foreign :
      (policy : CidrPolicy OwnerReference) (s : State) (ns name : String)
      (np : NetworkPolicy OwnerReference)
      → netpol_at s ns name ≡ some np
      → is_managed_network_policy_for L W policy np ≡ false
      → netpol_at ((reconcile L W policy s).1) ns name ≡ netpol_at s ns name
  spares_foreign policy s ns name np there foreign =
      elim (option_dec (namespace policy) (some ns)) [
        | no other ↦ spares_other_namespace policy s ns name other
        | yes here ↦ elim (string_dec name (managed_network_policy_name policy)) [
          | no other ↦ spares_other_name policy s ns name other
          | yes same ↦
              (reconcile_foreign L W C policy s ns (record {
                np = np;
                here = here;
                found = ap (netpol_at s ns) (sym same) ∙ there;
                foreign = foreign;
              })).0
                ns name
        ]
      ]

  reconcile-IsSpared :
      (policy : CidrPolicy OwnerReference) (s : State) (ns name : String)
      (np : NetworkPolicy OwnerReference)
      → netpol_at s ns name ≡ some np
      → IsSpared ns name np policy
      → netpol_at ((reconcile L W policy s).1) ns name ≡ some np
  reconcile-IsSpared policy s ns name np there (inl other) =
      spares_other_namespace policy s ns name other ∙ there
  reconcile-IsSpared policy s ns name np there (inr (inl other)) =
      spares_other_name policy s ns name other ∙ there
  reconcile-IsSpared policy s ns name np there (inr (inr foreign)) =
      spares_foreign policy s ns name np there foreign ∙ there

  pub Step-IsSpared :
      (policy : CidrPolicy OwnerReference) (s s' : State) (ns name : String)
      (np : NetworkPolicy OwnerReference)
      → Step L W policy s s'
      → netpol_at s ns name ≡ some np
      → IsSpared ns name np policy
      → netpol_at s' ns name ≡ some np
  unfolding error_policy
  Step-IsSpared policy s s' ns name np (reconciles _ _) there spared =
      reconcile-IsSpared policy s ns name np there spared
  Step-IsSpared policy s s' ns name np (reports delay _ error _) there spared =
      handle_reconcile_failure-Keeps policy _ _ s ns name tt ∙ there

  -- Whatever sequence of reconciliations, clean-ups and failure reports the controller runs, of
  -- whatever CIDRPolicies, however each of them ends, and whatever others do in between: a
  -- NetworkPolicy that is none of those CIDRPolicies', by its place or by its marks, and that the
  -- others leave as it is, is still there at the end as it was at the start.
  pub Run-IsSpared :
      (Others : State → State → Type 0) (policies : List (CidrPolicy OwnerReference)) (s s' : State)
      (ns name : String) (np : NetworkPolicy OwnerReference)
      → ((s₁ s₂ : State)
          → Others s₁ s₂
          → netpol_at s₁ ns name ≡ some np
          → netpol_at s₂ ns name ≡ some np)
      → Run L W Others policies s s'
      → netpol_at s ns name ≡ some np
      → All (IsSpared ns name np) policies
      → netpol_at s' ns name ≡ some np
  Run-IsSpared Others policies s s' ns name np leave (stop _) there spared = there
  Run-IsSpared Others policies s s' ns name np leave (step policy rest _ s₁ _ first run) there
        spared =
      Run-IsSpared Others rest s₁ s' ns name np leave run
        (Step-IsSpared policy s s₁ ns name np first there spared.0) spared.1
  Run-IsSpared Others policies s s' ns name np leave (others _ _ s₁ _ act run) there spared =
      Run-IsSpared Others policies s₁ s' ns name np leave run (leave s s₁ act there) spared
