-- ===== src/Controller/Raced.antt =====
-- controller.rs and netpol.rs: what others do to the cluster between the read of the managed name
-- and the apply, which is forced and carries no precondition on what was read.
use ipmaze.Base.{
  String, ◌≡◌, refl, sym, ap, ◌∙◌, Option, none, some, List, ok, is_some, map_option, arith,
}
use ipmaze.Base.Action.{◌>>=◌}
use ipmaze.Api.{CidrPolicy, managed_network_policy_name}
use ipmaze.Networking.{NetworkPolicy, NetworkPolicySpec}
use ipmaze.Libs.{Libs}
use ipmaze.World.{World}
use ipmaze.Validation.{ValidatedPolicy}
use ipmaze.Status.{
  ReconcileOutcome, reconciled, no_change, failed, patch_status_for_outcome, status_source,
  status_for_outcome, succeeded,
}
use ipmaze.NetPol.{field_manager}
use ipmaze.Controller.{
  prepare, settle, reconcile, Next, classify_outcome, apply_outcome, publish_outcome_event,
}
use ipmaze.Controller.Cluster.{Cluster}
use ipmaze.Controller.Cluster.Keeps.{patch_status_for_outcome-Keeps}
use ipmaze.Controller.Safety.{publish_outcome_event-Keeps}
use ipmaze.Controller.Isolation.{prepare-eq-ok}
use ipmaze.Controller.Managed.{
  get_managed_network_policy, apply_managed_network_policy, publish_policy_event, name_or_default,
}
use ipmaze.Controller.Rendering.{reconcile_update}
use ipmaze.Controller.Requeue.{schedule_requeue_after}

-- A world in which others act after every read of a NetworkPolicy.
abbrev pub raced : (L : Libs) (W : World L) → (W.State → W.State) → World L
raced L W meddle = record W {
  get_opt_network_policy = λ n m s. let (r, s') = W.get_opt_network_policy n m s in (r, meddle s');
}

module _ (L : Libs) (W : World L) (C : Cluster L W) where
  open L use {OwnerReference}
  open W use {State}
  open C use {netpol_at}

  abbrev spec_at : State → String → String → Option (Option NetworkPolicySpec)
  spec_at s ns name = map_option (λ o. o.spec) (netpol_at s ns name)

  same_patch :
      (meddle : State → State) (n : String) (policy : CidrPolicy OwnerReference)
      (outcome : ReconcileOutcome) (s : State)
      → patch_status_for_outcome L (raced L W meddle) n policy outcome s
        ≡ patch_status_for_outcome L W n policy outcome s
  unfolding patch_status_for_outcome status_source status_for_outcome succeeded
  same_patch meddle n policy outcome s = refl

  same_event :
      (meddle : State → State) (policy : CidrPolicy OwnerReference)
      (np : Option (NetworkPolicy OwnerReference)) (outcome : ReconcileOutcome) (s : State)
      → publish_outcome_event L (raced L W meddle) policy np outcome s
        ≡ publish_outcome_event L W policy np outcome s
  unfolding publish_outcome_event publish_policy_event
  same_event meddle policy np (reconciled os) s = refl
  same_event meddle policy np (no_change os) s = refl
  same_event meddle policy np (failed stage message) s = refl

  -- The status and the event leave the object as it is.
  patched_same :
      (meddle : State → State) (policy : CidrPolicy OwnerReference) (outcome : ReconcileOutcome)
      (n m : String) (s : State)
      → netpol_at ((patch_status_for_outcome L (raced L W meddle) n policy outcome s).1) n m
        ≡ netpol_at s n m
  patched_same meddle policy outcome n m s =
      ap (λ r. netpol_at r.1 n m) (same_patch meddle n policy outcome s)
      ∙ patch_status_for_outcome-Keeps L W C (λ _ _. Unit) n policy outcome s n m tt

  told_same :
      (meddle : State → State) (policy : CidrPolicy OwnerReference)
      (np : Option (NetworkPolicy OwnerReference)) (outcome : ReconcileOutcome) (n m : String)
      (s : State)
      → netpol_at ((publish_outcome_event L (raced L W meddle) policy np outcome s).1) n m
        ≡ netpol_at s n m
  told_same meddle policy np outcome n m s =
      ap (λ r. netpol_at r.1 n m) (same_event meddle policy np outcome s)
      ∙ publish_outcome_event-Keeps L W C (λ _ _. Unit) policy np outcome s n m tt

  -- The apply asks nothing of what is there.
  forced_through :
      (meddle : State → State) (n m : String) (np : NetworkPolicy OwnerReference) (s : State)
      (u : Unit {0})
      → np.metadata.name ≡ some m
      → (apply_managed_network_policy L (raced L W meddle) n np s).0 ≡ ok u
      → spec_at ((apply_managed_network_policy L (raced L W meddle) n np s).1) n m ≡ some np.spec
  unfolding apply_managed_network_policy
  forced_through meddle n m np s u named h =
      ap
        (λ x.
          spec_at
            ((W.apply_network_policy n (name_or_default np.metadata.name) field_manager np s).1) n
            (name_or_default x))
        (sym named)
      ∙ C.applied n (name_or_default np.metadata.name) field_manager np s u h

  settle-raced :
      (meddle : State → State) (policy : CidrPolicy OwnerReference) (v : ValidatedPolicy L)
      (np : NetworkPolicy OwnerReference) (observed : List String) (n : String) (s : State)
      (next : Next)
      → np.metadata.name ≡ some (managed_network_policy_name policy)
      → (W.get_opt_network_policy n (managed_network_policy_name policy) s).0 ≡ ok none
      → (settle L (raced L W meddle) policy (v, np, observed, n) s).0 ≡ ok next
      → spec_at
          ((settle L (raced L W meddle) policy (v, np, observed, n) s).1)
          n
          (managed_network_policy_name policy)
        ≡ some np.spec
  unfolding settle get_managed_network_policy classify_outcome apply_outcome schedule_requeue_after
  settle-raced meddle policy v np observed n s next named absent h =
      let m = managed_network_policy_name policy in
      let forced : (s₁ : State) (u : Unit {0})
          → (apply_managed_network_policy L (raced L W meddle) n np s₁).0 ≡ ok u
          → spec_at ((apply_managed_network_policy L (raced L W meddle) n np s₁).1) n m
            ≡ some np.spec =
        λ s₁ u. forced_through meddle n m np s₁ u named in
      let patched : (outcome : ReconcileOutcome) (s₁ : State)
          → netpol_at ((patch_status_for_outcome L (raced L W meddle) n policy outcome s₁).1) n m
            ≡ netpol_at s₁ n m =
        λ outcome s₁. patched_same meddle policy outcome n m s₁ in
      let told : (outcome : ReconcileOutcome) (s₁ : State)
          → netpol_at ((publish_outcome_event L (raced L W meddle) policy (some np) outcome s₁).1) n
              m
            ≡ netpol_at s₁ n m =
        λ outcome s₁. told_same meddle policy (some np) outcome n m s₁ in
      grind (arith, forced, patched, told)

  -- The ownership of the managed NetworkPolicy is decided by the read alone: let the read of the
  -- managed name find nothing, and let others then do whatever they do before the apply. When the
  -- reconciliation succeeds, the spec that this run has rendered is in force under the name, also
  -- in the place of an object that the others have created there in the meantime.
  pub reconcile-raced :
      (meddle : State → State) (policy : CidrPolicy OwnerReference) (v : ValidatedPolicy L)
      (np : NetworkPolicy OwnerReference) (observed : List String) (n : String) (s s₁ : State)
      (next : Next)
      → policy.metadata.deletion_timestamp ≡ none
      → prepare L (raced L W meddle) policy s ≡ (ok (v, np, observed, n), s₁)
      → (W.get_opt_network_policy n (managed_network_policy_name policy) s₁).0 ≡ ok none
      → (reconcile L (raced L W meddle) policy s).0 ≡ ok next
      → spec_at ((reconcile L (raced L W meddle) policy s).1) n (managed_network_policy_name policy)
        ≡ some np.spec
  reconcile-raced meddle policy v np observed n s s₁ next staying made absent h =
      let R = raced L W meddle in
      let named = (prepare-eq-ok L R policy s s₁ v np observed n made).1 in
      let whole : reconcile L R policy s ≡ settle L R policy (v, np, observed, n) s₁ =
        reconcile_update L R policy s (ap is_some staying)
        ∙ ap (λ p. ((λ _. p) >>= settle L R policy) s) made in
      ap (λ r. spec_at r.1 n (managed_network_policy_name policy)) whole
      ∙ settle-raced meddle policy v np observed n s₁ next named absent
          (ap (λ r. r.0) (sym whole) ∙ h)
