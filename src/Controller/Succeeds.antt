-- ===== src/Controller/Succeeds.antt =====
-- When `reconcile` is sure to succeed.
use ipmaze.Base.{
  arith, ℕ, ◌<◌, ◌≡◌, ap, ◌∙◌, String, true, Option, none, some, List, ok, inl, inr, is_some, map,
  Result-cases, Option-cases,
}
use ipmaze.Base.Action.{◌>>=◌}
use ipmaze.Api.{CidrPolicy, CidrPolicyStatus, managed_network_policy_name}
use ipmaze.Networking.{NetworkPolicy}
use ipmaze.Libs.{Libs}
use ipmaze.World.{World, Event}
use ipmaze.Source.{ResolvedSource}
use ipmaze.Source.Resolve.{resolve_final_source, fetch_json}
use ipmaze.Extract.{NormalizedCidr, compile_query, extract_cidrs}
use ipmaze.Validation.{ValidatedPolicy, validate_policy}
use ipmaze.Status.{reconciled, no_change, patch_status_for_outcome, status_source}
use ipmaze.NetPol.{is_managed_network_policy_for}
use ipmaze.NetPol.Ownership.{build_managed_network_policy_total}
use ipmaze.Controller.{
  prepare, settle, reconcile, requeue, render_payload, apply_outcome, publish_outcome_event,
}
use ipmaze.Controller.Isolation.{prepare-eq-ok}
use ipmaze.Controller.Cluster.{Cluster}
use ipmaze.Controller.Enforcement.{IsEnforced, reconcile-IsEnforced}
use ipmaze.Controller.Managed.{
  get_managed_network_policy, check_owned, apply_managed_network_policy, publish_policy_event,
}
use ipmaze.Controller.Rendering.{reconcile_update}
use ipmaze.Controller.Requeue.{schedule_requeue_after, next_resync_after}
use ipmaze.Controller.Resync.{reconcile-IsLater}
use ipmaze.Controller.Safety.{prepare-Keeps}
use ipmaze.Controller.Steady.{
  IsFree, Tolerates, prepare-Holds, get_managed_network_policy-Holds,
  patch_status_for_outcome-Holds,
}
use ipmaze.Controller.Steady.Establishes.{outcome_cases}
use ipmaze.Controller.Steady.Writes.{allowed, apply_outcome-Holds}

-- In a state that is up the API server grants each request of a reconciliation.
pub record Grants (L : Libs) (W : World L) (Up : W.State → Type 0) : Type 0 where
  pub reads :
      (n m : String) (s : W.State)
      → Up s
      → (found : Option (NetworkPolicy L.OwnerReference)) × ((W.get_opt_network_policy n m s).0
          ≡ ok found)
  pub applies :
      (n m manager : String) (np : NetworkPolicy L.OwnerReference) (s : W.State)
      → Up s
      → (W.apply_network_policy n m manager np s).0 ≡ ok tt
  pub patches :
      (n m manager : String) (status : CidrPolicyStatus) (s : W.State)
      → Up s
      → (W.patch_cidr_policy_status n m manager status s).0 ≡ ok tt
  pub publishes :
      (e : Event W.ObjectReference) (r : W.ObjectReference) (s : W.State)
      → Up s
      → (W.publish e r s).0 ≡ ok tt

module _ (L : Libs) (W : World L) where
  open L use {OwnerReference, Value, Expression}
  open W use {State, namespace}

  -- Validation accepts the policy, its source answers with a list from which CIDRs are extracted,
  -- it has a namespace, and its schedule has a next execution at any time.
  pub record IsReady (policy : CidrPolicy OwnerReference) (n : String) (s : State) : Type 0 where
    pub validated : ValidatedPolicy L
    pub source : ResolvedSource L
    pub payload : Value
    pub query : Expression
    pub cidrs : List NormalizedCidr
    pub validates : validate_policy L policy ≡ ok validated
    pub resolves :
        (resolve_final_source L W validated.source_address validated.pointer_regex s).0 ≡ ok source
    pub fetches :
        (fetch_json L W source.final_address
          ((resolve_final_source L W validated.source_address validated.pointer_regex s).1)).0
        ≡ ok payload
    pub compiles : compile_query L policy.spec.source.jmes_path ≡ ok query
    pub extracts : extract_cidrs L query payload ≡ ok cidrs
    pub here : namespace policy ≡ some n
    pub due :
        (now : L.DateTime)
        → (next : L.DateTime) × (d : ℕ) × (L.schedule_after validated.resync_schedule now
            ≡ some next)
          × (L.to_std (L.signed_duration_since next now) ≡ ok d)

  prepare_succeeds :
      (policy : CidrPolicy OwnerReference) (n : String) (s : State) (ready : IsReady policy n s)
      → (np : NetworkPolicy OwnerReference) × ((prepare L W policy s).0
          ≡ ok (ready.validated, np, map (λ c. c.rendered) ready.cidrs, n))
  unfolding prepare render_payload
  prepare_succeeds policy n s ready =
      let (np, builds) =
        build_managed_network_policy_total L W policy ready.validated n ready.cidrs ready.validates
          ready.here in
      (
        np,
        ground (
          arith, builds, ready.validates, ready.resolves, ready.fetches, ready.compiles,
          ready.extracts, ready.here,
        ),
      )

  schedule_requeue_after_succeeds :
      (policy : CidrPolicy OwnerReference) (n : String) (s s₁ : State) (ready : IsReady policy n s)
      → (d : ℕ) × ((schedule_requeue_after L W ready.validated.resync_schedule s₁).0 ≡ ok d)
  unfolding schedule_requeue_after next_resync_after
  schedule_requeue_after_succeeds policy n s s₁ ready =
      let (next, d, at, lasts) = ready.due (W.now s₁) in
      elim (Result-cases ((schedule_requeue_after L W ready.validated.resync_schedule s₁).0)) [
        | inl found ↦ found
        | inr (e, bad) ↦ absurd (ground arith)
      ]

module _ (L : Libs) (W : World L) (C : Cluster L W) (Up : W.State → Type 0)
    (G : Grants L W Up) where
  open L use {OwnerReference}
  open W use {State, namespace}
  open C use {netpol_at}

  check_owned_succeeds :
      (policy : CidrPolicy OwnerReference) (action : String) (np : NetworkPolicy OwnerReference)
      (s : State)
      → is_managed_network_policy_for L W policy np ≡ true
      → (check_owned L W policy action np s).0 ≡ ok (some np)
  unfolding check_owned
  check_owned_succeeds policy action np s ours = ground arith

  pub read_succeeds :
      (policy : CidrPolicy OwnerReference) (action n : String) (s : State)
      → Up s
      → IsFree L W Up policy (netpol_at s n (managed_network_policy_name policy))
      → (get_managed_network_policy L W n policy action s).0
        ≡ ok (netpol_at s n (managed_network_policy_name policy))
  unfolding get_managed_network_policy
  read_succeeds policy action n s up free =
      let m = managed_network_policy_name policy in
      let (found, e) = G.reads n m s up in
      let s' = (W.get_opt_network_policy n m s).1 in
      let there = C.read n m s s' found (ap (λ x. (x, s')) e) in
      elim (Option-cases (netpol_at s n m)) [
        | inl e' ↦ ground arith
        | inr (np, e') ↦
            let owned = check_owned_succeeds policy action np s' (rw e' at free) in ground arith
      ]

  applied_succeeds :
      (n : String) (np : NetworkPolicy OwnerReference) (observed : List String) (s : State)
      → Up s
      → (apply_outcome L W n np (reconciled observed) s).0 ≡ ok tt
  unfolding apply_outcome apply_managed_network_policy
  applied_succeeds n np observed s up = G.applies n _ _ np s up

  patched_succeeds :
      (n : String) (policy : CidrPolicy OwnerReference) (observed : List String) (s : State)
      → Up s
      → ((patch_status_for_outcome L W n policy (reconciled observed) s).0 ≡ ok tt)
        × ((patch_status_for_outcome L W n policy (no_change observed) s).0 ≡ ok tt)
  unfolding patch_status_for_outcome status_source
  patched_succeeds n policy observed s up = (G.patches n _ _ _ s up, G.patches n _ _ _ s up)

  told_succeeds :
      (policy : CidrPolicy OwnerReference) (np : Option (NetworkPolicy OwnerReference))
      (observed : List String) (s : State)
      → Up s
      → (publish_outcome_event L W policy np (reconciled observed) s).0 ≡ ok tt
  unfolding publish_outcome_event publish_policy_event
  told_succeeds policy np observed s up = G.publishes _ _ s up

  settle_succeeds :
      (policy : CidrPolicy OwnerReference) (n : String) (s₀ s : State)
      (ready : IsReady L W policy n s₀) (np : NetworkPolicy OwnerReference) (observed : List String)
      → Tolerates L W Up policy
      → np.metadata.name ≡ some (managed_network_policy_name policy)
      → Up s
      → IsFree L W Up policy (netpol_at s n (managed_network_policy_name policy))
      → (d : ℕ) × ((settle L W policy (ready.validated, np, observed, n) s).0 ≡ ok (requeue d))
  unfolding settle apply_outcome publish_outcome_event
  settle_succeeds policy n s₀ s ready np observed T named up free =
      let m = managed_network_policy_name policy in
      let read = read_succeeds policy "Reconcile" n s up free in
      let s₁ = (get_managed_network_policy L W n policy "Reconcile" s).1 in
      let up₁ = get_managed_network_policy-Holds L W Up T.quiet n policy "Reconcile" s up in
      elim (outcome_cases L W (netpol_at s n m) np observed) [
        | inl changed ↦
            let may =
              allowed L W Up policy "Reconcile" n s (netpol_at s n m) T ready.here up read in
            let s₂ = (apply_outcome L W n np (reconciled observed) s₁).1 in
            let up₂ =
              apply_outcome-Holds L W Up policy n np (reconciled observed) may named s₁ up₁ in
            let s₃ = (patch_status_for_outcome L W n policy (reconciled observed) s₂).1 in
            let up₃ =
              patch_status_for_outcome-Holds L W Up T.quiet n policy (reconciled observed) s₂ up₂ in
            let s₄ = (publish_outcome_event L W policy (some np) (reconciled observed) s₃).1 in
            let (d, due) = schedule_requeue_after_succeeds L W policy n s₀ s₄ ready in
            (
              d,
              ground (
                arith,
                read,
                changed,
                applied_succeeds n np observed s₁ up₁,
                (patched_succeeds n policy observed s₂ up₂).0,
                told_succeeds policy (some np) observed s₃ up₃,
                due,
              ),
            )
        | inr same ↦
            let s₂ = (patch_status_for_outcome L W n policy (no_change observed) s₁).1 in
            let (d, due) = schedule_requeue_after_succeeds L W policy n s₀ s₂ ready in
            (d, ground (arith, read, same, (patched_succeeds n policy observed s₁ up₁).1, due))
      ]

  -- `reconcile` does succeed, on a CIDRPolicy that is not being deleted, when validation accepts it,
  -- its source answers with a list from which CIDRs are extracted, it has a namespace, its schedule
  -- has a next execution at any time, the managed name is free or holds an object with the policy's
  -- marks, and the API server, which the run's own calls do not bring down, grants each request:
  -- then the rendered spec is in force, and the next run is due after a delay that is not zero.
  pub reconcile_succeeds :
      (policy : CidrPolicy OwnerReference) (n : String) (s : State)
      → policy.metadata.deletion_timestamp ≡ none
      → IsReady L W policy n s
      → IsFree L W Up policy (netpol_at s n (managed_network_policy_name policy))
      → Tolerates L W Up policy
      → Up s
      → (d : ℕ) × (0 < d)
        × ((reconcile L W policy s).0 ≡ ok (requeue d))
        × IsEnforced L W netpol_at policy s ((reconcile L W policy s).1)
  reconcile_succeeds policy n s staying ready free T up =
      let m = managed_network_policy_name policy in
      let (np, made) = prepare_succeeds L W policy n s ready in
      let s₁ = (prepare L W policy s).1 in
      let whole = ap (λ r. (r, s₁)) made in
      let (_, named) = prepare-eq-ok L W policy s s₁ _ np _ n whole in
      let kept = prepare-Keeps L W C (λ _ _. Unit) policy s n m tt in
      let (d, settled) =
        settle_succeeds policy n s s₁ ready np _ T named (prepare-Holds L W Up T.quiet policy s up)
          (rw kept free) in
      let done =
        ap (λ r. r.0) (reconcile_update L W policy s (ap is_some staying))
        ∙ ap (λ p. (((λ _. p) >>= settle L W policy) s).0) whole
        ∙ settled in
      (
        d,
        (reconcile-IsLater L W policy s (requeue d) done).0 staying,
        done,
        reconcile-IsEnforced L W C policy s (requeue d) staying done,
      )
