-- ===== src/Controller/Enforcement.antt =====
-- What a successful `reconcile` leaves in the cluster.
use ipmaze.Base.{
  String, ◌≡◌, ◌≢◌, sym, ap, ◌∙◌, Option, none, some, List, ok, is_some, map_option, arith,
}
use mathlib.Core.Path.{subst}
use ipmaze.Base.Action.{◌>>=◌, >>=-eq-ok}
use ipmaze.Api.{CidrPolicy, ingress, egress, managed_network_policy_name}
use ipmaze.Networking.{NetworkPolicy, NetworkPolicySpec}
use ipmaze.Libs.{Libs}
use ipmaze.World.{World}
use ipmaze.Extract.{NormalizedCidr}
use ipmaze.Extract.Order.{renderings}
use ipmaze.Validation.{ValidatedPolicy}
use ipmaze.Status.{
  ReconcileStage, ReconcileOutcome, reconciled, no_change, failed, patch_status_for_outcome,
}
use ipmaze.NetPol.{field_manager}
use ipmaze.NetPol.Rules.Blocks.{per_rule}
use ipmaze.NetPol.Ownership.{ingress_blocks, egress_blocks, build_managed_network_policy-blocks}
use ipmaze.Controller.{
  prepare, settle, reconcile, Next, classify_outcome, apply_outcome, publish_outcome_event,
}
use ipmaze.Controller.Cluster.{Cluster}
use ipmaze.Controller.Cluster.Keeps.{
  get_managed_network_policy-Keeps, patch_status_for_outcome-Keeps,
}
use ipmaze.Controller.Safety.{publish_outcome_event-Keeps}
use ipmaze.Controller.Steady.Writes.{get_managed_network_policy-IsFree}
use ipmaze.Controller.Isolation.{prepare-eq-ok}
use ipmaze.Controller.Resync.{unchanged_spec}
use ipmaze.Controller.Managed.{
  get_managed_network_policy, apply_managed_network_policy, name_or_default,
}
use ipmaze.Controller.Rendering.{IsRendered, prepare-IsRendered, reconcile_update}
use ipmaze.Controller.Requeue.{schedule_requeue_after}

module _ (L : Libs) (W : World L)
    (view : W.State → String → String → Option (NetworkPolicy L.OwnerReference)) where
  open L use {OwnerReference}
  open W use {State, namespace}

  -- The cluster after a successful run: the managed object holds a spec, rendered from what this
  -- run has extracted, whose blocks are exactly the extracted CIDRs in each rule that applies.
  pub record IsEnforced (policy : CidrPolicy OwnerReference) (s s' : State) : Type 0 where
    pub cidrs : List NormalizedCidr
    pub np : NetworkPolicy OwnerReference
    pub rendered : IsRendered L W policy s cidrs np
    pub spec : NetworkPolicySpec
    pub ns : String
    pub here : namespace policy ≡ some ns
    pub in_force :
        map_option (λ o. o.spec) (view s' ns (managed_network_policy_name policy))
        ≡ some (some spec)
    pub ingress_allowed :
        ingress_blocks spec ≡ per_rule ingress policy.spec.rules (renderings cidrs)
    pub egress_allowed : egress_blocks spec ≡ per_rule egress policy.spec.rules (renderings cidrs)

  -- The rest of a run leaves the rendered spec in force when it succeeds.
  abbrev SettlesInForce : CidrPolicy OwnerReference → Next → Type 0
  SettlesInForce policy next =
      (v : ValidatedPolicy L) (np : NetworkPolicy OwnerReference) (observed : List String)
      (n : String) (s₁ : State)
      → namespace policy ≡ some n
      → np.metadata.name ≡ some (managed_network_policy_name policy)
      → (settle L W policy (v, np, observed, n) s₁).0 ≡ ok next
      → map_option (λ o. o.spec)
          (view ((settle L W policy (v, np, observed, n) s₁).1) n
            (managed_network_policy_name policy))
        ≡ some np.spec

  update-IsEnforced :
      (policy : CidrPolicy OwnerReference) (s : State) (next : Next)
      → SettlesInForce policy next
      → ((prepare L W policy >>= settle L W policy) s).0 ≡ ok next
      → IsEnforced policy s (((prepare L W policy >>= settle L W policy) s).1)
  update-IsEnforced policy s next in_force h =
      let end : State = ((prepare L W policy >>= settle L W policy) s).1 in
      let ((v, np, observed, n), s₁, made, settled) =
        >>=-eq-ok (prepare L W policy) (settle L W policy) s {s' = end} (ap (λ x. (x, end)) h) in
      let (here, named) = prepare-eq-ok L W policy s s₁ v np observed n made in
      let (cidrs, rendered, _) =
        prepare-IsRendered L W policy s v np observed n (ap (λ x. x.0) made) in
      let (spec, is, ingress_allowed, egress_allowed) =
        build_managed_network_policy-blocks L W policy cidrs np rendered.builds in
      record {
        cidrs = cidrs;
        np = np;
        rendered = rendered;
        spec = spec;
        ns = n;
        here = here;
        in_force =
            ap (λ x. map_option (λ o. o.spec) (view x.1 n (managed_network_policy_name policy)))
              (sym settled)
            ∙ in_force v np observed n s₁ here named (ap (λ x. x.0) settled)
            ∙ ap some is;
        ingress_allowed = ingress_allowed;
        egress_allowed = egress_allowed;
      }

  -- Then the run does.
  pub IsEnforced-settle :
      (policy : CidrPolicy OwnerReference) (s : State) (next : Next)
      → policy.metadata.deletion_timestamp ≡ none
      → SettlesInForce policy next
      → (reconcile L W policy s).0 ≡ ok next
      → IsEnforced policy s ((reconcile L W policy s).1)
  IsEnforced-settle policy s next staying in_force h =
      let same = reconcile_update L W policy s (ap is_some staying) in
      subst (λ r. IsEnforced policy s r.1) (sym same)
        (update-IsEnforced policy s next in_force (ap (λ r. r.0) (sym same) ∙ h))

module _ (L : Libs) (W : World L) (C : Cluster L W) where
  open L use {OwnerReference, Value, Expression}
  open W use {State, namespace}
  open C use {netpol_at}

  abbrev spec_at : State → String → String → Option (Option NetworkPolicySpec)
  spec_at s ns name = map_option (λ o. o.spec) (netpol_at s ns name)

  -- A read that succeeds returns what is there.
  pub get_managed_network_policy-eq-ok :
      (policy : CidrPolicy OwnerReference) (action n : String) (s : State)
      (r : Option (NetworkPolicy OwnerReference))
      → (get_managed_network_policy L W n policy action s).0 ≡ ok r
      → r ≡ netpol_at s n (managed_network_policy_name policy)
  get_managed_network_policy-eq-ok policy action n s r h =
      let s' = (W.get_opt_network_policy n (managed_network_policy_name policy) s).1 in
      let (found, e, _, same) =
        get_managed_network_policy-IsFree L W (λ _. Unit) policy action n s r h in
      same ∙ C.read n (managed_network_policy_name policy) s s' found (ap (λ x. (x, s')) e)

  classify_outcome-ne-failed :
      (r : Option (NetworkPolicy OwnerReference)) (np : NetworkPolicy OwnerReference)
      (observed : List String) (stage : ReconcileStage) (message : String)
      → classify_outcome L W r np observed ≢ failed stage message
  unfolding classify_outcome
  classify_outcome-ne-failed r np observed stage message h = ground arith

  -- The write, where it is needed, leaves the rendered spec in place.
  apply_outcome_spec :
      (n m : String) (np : NetworkPolicy OwnerReference) (observed : List String)
      (outcome : ReconcileOutcome) (s : State) (u : Unit {0})
      → np.metadata.name ≡ some m
      → classify_outcome L W (netpol_at s n m) np observed ≡ outcome
      → (apply_outcome L W n np outcome s).0 ≡ ok u
      → spec_at ((apply_outcome L W n np outcome s).1) n m ≡ some np.spec
  unfolding apply_outcome apply_managed_network_policy
  apply_outcome_spec n m np observed (reconciled os) s u named k h =
      ap (λ x. spec_at ((apply_managed_network_policy L W n np s).1) n (name_or_default x))
        (sym named)
      ∙ C.applied n (name_or_default np.metadata.name) field_manager np s u h
  apply_outcome_spec n m np observed (no_change os) s u named k h =
      unchanged_spec L W (netpol_at s n m) np observed os k
  apply_outcome_spec n m np observed (failed stage message) s u named k h =
      absurd (classify_outcome-ne-failed (netpol_at s n m) np observed stage message k)

  settle_spec :
      (policy : CidrPolicy OwnerReference) (v : ValidatedPolicy L)
      (np : NetworkPolicy OwnerReference) (observed : List String) (n : String) (s : State)
      (next : Next)
      → np.metadata.name ≡ some (managed_network_policy_name policy)
      → (settle L W policy (v, np, observed, n) s).0 ≡ ok next
      → spec_at
          ((settle L W policy (v, np, observed, n) s).1)
          n
          (managed_network_policy_name policy)
        ≡ some np.spec
  unfolding settle schedule_requeue_after
  settle_spec policy v np observed n s next named h =
      let m = managed_network_policy_name policy in
      let all : String → String → Type 0 = λ _ _. Unit in
      let read : (r : Option (NetworkPolicy OwnerReference))
          → (get_managed_network_policy L W n policy "Reconcile" s).0 ≡ ok r
          → r ≡ netpol_at s n m =
        λ r. get_managed_network_policy-eq-ok policy "Reconcile" n s r in
      let got = get_managed_network_policy-Keeps L W C all n policy "Reconcile" s n m tt in
      let applied : (outcome : ReconcileOutcome) (s₁ : State) (u : Unit {0})
          → classify_outcome L W (netpol_at s₁ n m) np observed ≡ outcome
          → (apply_outcome L W n np outcome s₁).0 ≡ ok u
          → spec_at ((apply_outcome L W n np outcome s₁).1) n m ≡ some np.spec =
        λ outcome s₁ u. apply_outcome_spec n m np observed outcome s₁ u named in
      let patched : (outcome : ReconcileOutcome) (s₁ : State)
          → netpol_at ((patch_status_for_outcome L W n policy outcome s₁).1) n m
            ≡ netpol_at s₁ n m =
        λ outcome s₁. patch_status_for_outcome-Keeps L W C all n policy outcome s₁ n m tt in
      let told : (outcome : ReconcileOutcome) (s₁ : State)
          → netpol_at ((publish_outcome_event L W policy (some np) outcome s₁).1) n m
            ≡ netpol_at s₁ n m =
        λ outcome s₁. publish_outcome_event-Keeps L W C all policy (some np) outcome s₁ n m tt in
      grind (arith, read, applied, patched, told)

  -- When `reconcile` succeeds on a CIDRPolicy that is not being deleted, the NetworkPolicy under the
  -- managed name is in force with the spec that is rendered from the CIDRs that this very run has
  -- resolved, fetched and extracted: for ingress and for egress, one list of blocks for each rule
  -- that applies, and each list is exactly those CIDRs, whether the run has written it or has
  -- found it unchanged.
  pub reconcile-IsEnforced :
      (policy : CidrPolicy OwnerReference) (s : State) (next : Next)
      → policy.metadata.deletion_timestamp ≡ none
      → (reconcile L W policy s).0 ≡ ok next
      → IsEnforced L W netpol_at policy s ((reconcile L W policy s).1)
  reconcile-IsEnforced policy s next staying h =
      IsEnforced-settle L W netpol_at policy s next staying
        (λ v np observed n s₁ here named. settle_spec policy v np observed n s₁ next named) h
