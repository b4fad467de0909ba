-- ===== src/Controller/Rewrites.antt =====
-- controller.rs and netpol.rs: what `reconcile` does on an API server that leaves empty lists of rules
-- out of what it returns, while the rendered policy has such a list.
use ipmaze.Base.{
  arith, ℕ, suc, String, false, ◌≡◌, ◌≢◌, refl, sym, ap, ◌∙◌, Option, none, some, List, [], ◌∷◌, ok,
  inl, inr, any, is_some, map_option,
}
use ipmaze.Base.Action.{>>=-eq-ok}
use ipmaze.Api.{CidrPolicy, managed_network_policy_name, RuleSpec, Direction, ingress, egress}
use ipmaze.Networking.{NetworkPolicy, NetworkPolicySpec}
use ipmaze.Libs.{Libs}
use ipmaze.World.{World}
use ipmaze.Extract.{NormalizedCidr}
use ipmaze.Validation.{ValidatedPolicy}
use ipmaze.NetPol.{build_managed_network_policy}
use ipmaze.NetPol.Rules.{build_ingress_rules, build_egress_rules}
use ipmaze.NetPol.Rules.Directions.{applies, has_direction-effective_directions}
use ipmaze.NetPol.Ownership.{build-IsBuilt}
use ipmaze.Status.{reconciled}
use ipmaze.Controller.{prepare, settle, reconcile, Next, classify_outcome, apply_outcome}
use ipmaze.Controller.Managed.{get_managed_network_policy, apply_managed_network_policy}
use ipmaze.Controller.Rendering.{prepare-IsRendered, reconcile_update}
use ipmaze.Controller.Requeue.{schedule_requeue_after}
use ipmaze.Controller.Resync.{unchanged_spec}
use ipmaze.Controller.Steady.{
  IsQuiet, prepare-Holds, get_managed_network_policy-Holds, patch_status_for_outcome-Holds,
  publish_outcome_event-Holds,
}
use ipmaze.Controller.Steady.Establishes.{outcome_cases}
use ipmaze.Controller.Steady.Writes.{get_managed_network_policy-IsFree}
use ipmaze.Controller.Calls.{Call, Logged, logged, applied}

-- No rule applies to the direction.
abbrev pub IsUnused : Direction → List RuleSpec → Type 0
IsUnused d rules = any (applies d) rules ≡ false

build_ingress_rules-unused :
    (rules : List RuleSpec) (cidrs : List NormalizedCidr)
    → IsUnused ingress rules
    → build_ingress_rules rules cidrs ≡ ok []
unfolding build_ingress_rules
build_ingress_rules-unused [] cidrs h = refl
build_ingress_rules-unused (rule ∷ rules) cidrs h =
    let rest = build_ingress_rules-unused rules cidrs in
    let same = has_direction-effective_directions ingress rule in ground (arith, rest, same)

build_egress_rules-unused :
    (rules : List RuleSpec) (cidrs : List NormalizedCidr)
    → IsUnused egress rules
    → build_egress_rules rules cidrs ≡ ok []
unfolding build_egress_rules
build_egress_rules-unused [] cidrs h = refl
build_egress_rules-unused (rule ∷ rules) cidrs h =
    let rest = build_egress_rules-unused rules cidrs in
    let same = has_direction-effective_directions egress rule in ground (arith, rest, same)

-- The spec has an empty list of rules for the direction.
abbrev HasEmpty : Direction → NetworkPolicySpec → Type 0
HasEmpty ingress spec = spec.ingress ≡ some []
HasEmpty egress spec = spec.egress ≡ some []

module _ (L : Libs) (W : World L) where
  open L use {OwnerReference}
  open W use {State}

  -- A NetworkPolicy that is read has no empty list of rules: the API server leaves such a list out.
  abbrev pub OmitsEmpty : Type 0
  OmitsEmpty =
      (n m : String) (s : State) (np : NetworkPolicy OwnerReference) (spec : NetworkPolicySpec)
      → (W.get_opt_network_policy n m s).0 ≡ ok (some np)
      → np.spec ≡ some spec
      → (spec.ingress ≢ some []) × (spec.egress ≢ some [])

  build-HasEmpty :
      (d : Direction) (policy : CidrPolicy OwnerReference) (cidrs : List NormalizedCidr)
      (np : NetworkPolicy OwnerReference)
      → IsUnused d policy.spec.rules
      → build_managed_network_policy L W policy cidrs ≡ ok np
      → (spec : NetworkPolicySpec) × (np.spec ≡ some spec) × HasEmpty d spec
  build-HasEmpty ingress policy cidrs np unused h =
      let b = build-IsBuilt L W policy cidrs np h in
      let none_made = build_ingress_rules-unused policy.spec.rules cidrs unused in
      (_, b.spec_made, cc (b.ingress_built, none_made))
  build-HasEmpty egress policy cidrs np unused h =
      let b = build-IsBuilt L W policy cidrs np h in
      let none_made = build_egress_rules-unused policy.spec.rules cidrs unused in
      (_, b.spec_made, cc (b.egress_built, none_made))

  -- What is read never agrees with a spec that has an empty list of rules.
  classify_outcome-HasEmpty :
      (d : Direction) (policy : CidrPolicy OwnerReference) (n : String) (s : State)
      (r : Option (NetworkPolicy OwnerReference)) (np : NetworkPolicy OwnerReference)
      (spec : NetworkPolicySpec) (observed : List String)
      → OmitsEmpty
      → np.spec ≡ some spec
      → HasEmpty d spec
      → (get_managed_network_policy L W n policy "Reconcile" s).0 ≡ ok r
      → classify_outcome L W r np observed ≡ reconciled observed
  classify_outcome-HasEmpty d policy n s r np spec observed omits is lacks h =
      let (found, read, _, same) =
        get_managed_network_policy-IsFree L W (λ _. Unit) policy "Reconcile" n s r h in
      elim (outcome_cases L W r np observed) [
        | inl changed ↦ changed
        | inr agreed ↦ absurd (
            clash d found read
              (ap (map_option (λ o. o.spec)) (sym same)
                ∙ unchanged_spec L W r np observed observed agreed
                ∙ ap some is)
              lacks)
      ]
    where
      clash :
          (d : Direction) (found : Option (NetworkPolicy OwnerReference))
          → (W.get_opt_network_policy n (managed_network_policy_name policy) s).0 ≡ ok found
          → map_option (λ o. o.spec) found ≡ some (some spec)
          → HasEmpty d spec
          → ⊥
      clash d none read e lacks = cc e
      clash ingress (some cur) read e lacks =
          (omits n (managed_network_policy_name policy) s cur spec read (cc e)).0 lacks
      clash egress (some cur) read e lacks =
          (omits n (managed_network_policy_name policy) s cur spec read (cc e)).1 lacks

module _ (L : Libs) (W : World L) where
  open L use {OwnerReference}

  -- How many NetworkPolicies have been applied.
  abbrev pub writes : List (Call L W) → ℕ
  writes [] = 0
  writes (applied n m np r ∷ log) = suc (writes log)
  writes (_ ∷ log) = writes log

  abbrev Wrote : ℕ → Logged L W → Type 0
  Wrote k s = writes s.1 ≡ k

  Wrote-IsQuiet : (k : ℕ) → IsQuiet L (logged L W) (Wrote k)
  Wrote-IsQuiet k = record {
    by_send = λ u s h. h;
    by_text = λ r s h. h;
    by_bytes = λ r s h. h;
    by_read = λ n m s h. h;
    by_get = λ n m s h. h;
    by_patch_status = λ n m manager status s h. h;
    by_publish = λ e r s h. h;
  }

  settle-Wrote :
      (d : Direction) (policy : CidrPolicy OwnerReference) (v : ValidatedPolicy L)
      (np : NetworkPolicy OwnerReference) (spec : NetworkPolicySpec) (observed : List String)
      (n : String) (s : Logged L W) (next : Next) (k : ℕ)
      → OmitsEmpty L W
      → np.spec ≡ some spec
      → HasEmpty d spec
      → Wrote k s
      → (settle L (logged L W) policy (v, np, observed, n) s).0 ≡ ok next
      → Wrote (suc k) (settle L (logged L W) policy (v, np, observed, n) s).1
  unfolding settle apply_outcome apply_managed_network_policy schedule_requeue_after
  settle-Wrote d policy v np spec observed n s next k omits is lacks wrote h =
      let M = logged L W in
      let got =
        get_managed_network_policy-Holds L M (Wrote k) (Wrote-IsQuiet k) n policy "Reconcile" s
          wrote in
      let changed : (r : Option (NetworkPolicy OwnerReference))
          → (get_managed_network_policy L M n policy "Reconcile" s).0 ≡ ok r
          → classify_outcome L M r np observed ≡ reconciled observed =
        λ r.
          classify_outcome-HasEmpty L M d policy n s r np spec observed (λ n m s₁. omits n m s₁.0)
            is lacks in
      let patched =
        patch_status_for_outcome-Holds L M (Wrote (suc k)) (Wrote-IsQuiet (suc k)) n policy in
      let told =
        publish_outcome_event-Holds L M (Wrote (suc k)) (Wrote-IsQuiet (suc k)) policy (some np) in
      grind (arith, changed, patched, told)

  -- On an API server that leaves empty lists of rules out of what it returns, every `reconcile` that
  -- succeeds on a CIDRPolicy that is not being deleted, and none of whose rules applies to one of
  -- the directions, applies its NetworkPolicy once more, also when nothing has changed since the
  -- run before.
  pub reconcile_rewrites :
      (d : Direction) (policy : CidrPolicy OwnerReference) (s : Logged L W) (next : Next)
      → OmitsEmpty L W
      → IsUnused d policy.spec.rules
      → policy.metadata.deletion_timestamp ≡ none
      → (reconcile L (logged L W) policy s).0 ≡ ok next
      → writes ((reconcile L (logged L W) policy s).1).1 ≡ suc (writes s.1)
  reconcile_rewrites d policy s next omits unused staying h =
      let M = logged L W in
      let same = reconcile_update L M policy s (ap is_some staying) in
      let end : Logged L W = (reconcile L M policy s).1 in
      let ((v, np, observed, n), s₁, made, settled) =
        >>=-eq-ok (prepare L M policy) (settle L M policy) s {s' = end}
          (sym same ∙ ap (λ x. (x, end)) h) in
      let (cidrs, rendered, _) =
        prepare-IsRendered L M policy s v np observed n (ap (λ x. x.0) made) in
      let (spec, is, lacks) = build-HasEmpty L M d policy cidrs np unused rendered.builds in
      let before : Wrote (writes s.1) s₁ =
        ap (λ x. writes x.1.1) (sym made)
        ∙ prepare-Holds L M (Wrote (writes s.1)) (Wrote-IsQuiet (writes s.1)) policy s refl in
      ap (λ x. writes x.1.1) (sym settled)
      ∙ settle-Wrote d policy v np spec observed n s₁ next (writes s.1) omits is lacks before
          (ap (λ x. x.0) settled)
