-- ===== src/Controller/Collision.antt =====
-- `reconcile` and `cleanup` when the object under the managed name is somebody else's.
use ipmaze.Controller.Isolation.{prepare-eq-ok}
use ipmaze.Base.{
  String, false, ◌≡◌, ◌≢◌, sym, ap, ◌∙◌, Option, some, List, ok, inl, inr, Bool-cases, Result-cases,
  is_some, arith,
}
use ipmaze.Base.Action.{◌>>=◌, >>=-eq-ok}
use ipmaze.Api.{CidrPolicy, managed_network_policy_name}
use ipmaze.Networking.{NetworkPolicy}
use ipmaze.Libs.{Libs}
use ipmaze.World.{World}
use ipmaze.Validation.{ValidatedPolicy}
use ipmaze.NetPol.{is_managed_network_policy_for}
use ipmaze.Controller.{prepare, settle, cleanup, reconcile, Next}
use ipmaze.Controller.Cluster.{Cluster}
use ipmaze.Controller.Cluster.Keeps.{>>=-KeepsFrom, get_managed_network_policy-Keeps}
use ipmaze.Controller.Safety.{prepare-Keeps}
use ipmaze.Controller.Managed.{get_managed_network_policy, check_owned}

module _ (L : Libs) (W : World L) (C : Cluster L W) where
  open L use {OwnerReference}
  open W use {State, namespace}
  open C use {netpol_at}

  -- In this namespace, the object under the managed name is somebody else's.
  pub record IsForeign (policy : CidrPolicy OwnerReference) (n : String) (s : State) : Type 0 where
    pub np : NetworkPolicy OwnerReference
    pub here : namespace policy ≡ some n
    pub found : netpol_at s n (managed_network_policy_name policy) ≡ some np
    pub foreign : is_managed_network_policy_for L W policy np ≡ false

  check_owned-err :
      (policy : CidrPolicy OwnerReference) (action : String) (np : NetworkPolicy OwnerReference)
      (s : State) (r : Option (NetworkPolicy OwnerReference))
      → is_managed_network_policy_for L W policy np ≡ false
      → (check_owned L W policy action np s).0 ≢ ok r
  unfolding check_owned
  check_owned-err policy action np s r foreign h = ground arith

  get_managed_network_policy-err :
      (policy : CidrPolicy OwnerReference) (action : String) (s : State) (n : String)
      (f : IsForeign policy n s) (r : Option (NetworkPolicy OwnerReference))
      → (get_managed_network_policy L W n policy action s).0 ≢ ok r
  unfolding get_managed_network_policy
  get_managed_network_policy-err policy action s n f r h =
      let m = managed_network_policy_name policy in
      let refused : (s₁ : State) → (check_owned L W policy action f.np s₁).0 ≢ ok r =
        λ s₁. check_owned-err policy action f.np s₁ r f.foreign in
      let read : (found : Option (NetworkPolicy OwnerReference))
          → (W.get_opt_network_policy n m s).0 ≡ ok found
          → found ≡ some f.np =
        λ found e.
          C.read n m s ((W.get_opt_network_policy n m s).1) found
            (ap (λ x. (x, (W.get_opt_network_policy n m s).1)) e)
          ∙ f.found in
      elim (Result-cases ((W.get_opt_network_policy n m s).0)) [
        | inl (found, e) ↦
            let there : (W.get_opt_network_policy n m s).0 ≡ ok (some f.np) =
              e ∙ ap ok (read found e) in
            let no = refused ((W.get_opt_network_policy n m s).1) in absurd (ground arith)
        | inr (x, e) ↦ absurd (ground arith)
      ]

  settle_foreign :
      (policy : CidrPolicy OwnerReference) (v : ValidatedPolicy L)
      (rendered : NetworkPolicy OwnerReference) (observed : List String) (s : State) (n : String)
      (f : IsForeign policy n s) (ns name : String)
      → netpol_at ((settle L W policy (v, rendered, observed, n) s).1) ns name ≡ netpol_at s ns name
  unfolding settle
  settle_foreign policy v rendered observed s n f ns name =
      let got =
        get_managed_network_policy-Keeps L W C (λ _ _. Unit) n policy "Reconcile" s ns name tt in
      let never : (r : Option (NetworkPolicy OwnerReference))
          → (get_managed_network_policy L W n policy "Reconcile" s).0 ≢ ok r =
        λ r. get_managed_network_policy-err policy "Reconcile" s n f r in
      grind (arith, never)

  settle_foreign_err :
      (policy : CidrPolicy OwnerReference) (v : ValidatedPolicy L)
      (rendered : NetworkPolicy OwnerReference) (observed : List String) (s : State) (n : String)
      (f : IsForeign policy n s) (next : Next)
      → (settle L W policy (v, rendered, observed, n) s).0 ≢ ok next
  unfolding settle
  settle_foreign_err policy v rendered observed s n f next h =
      let never : (r : Option (NetworkPolicy OwnerReference))
          → (get_managed_network_policy L W n policy "Reconcile" s).0 ≢ ok r =
        λ r. get_managed_network_policy-err policy "Reconcile" s n f r in
      grind (arith, never)

  cleanup_foreign :
      (policy : CidrPolicy OwnerReference) (s : State) (n : String) (f : IsForeign policy n s)
      (ns name : String)
      → netpol_at ((cleanup L W policy s).1) ns name ≡ netpol_at s ns name
  unfolding cleanup
  cleanup_foreign policy s n f ns name =
      let here = f.here in
      let got =
        get_managed_network_policy-Keeps L W C (λ _ _. Unit) n policy "Cleanup" s ns name tt in
      let never : (r : Option (NetworkPolicy OwnerReference))
          → (get_managed_network_policy L W n policy "Cleanup" s).0 ≢ ok r =
        λ r. get_managed_network_policy-err policy "Cleanup" s n f r in
      grind (arith, never)

  cleanup_foreign_err :
      (policy : CidrPolicy OwnerReference) (s : State) (n : String) (f : IsForeign policy n s)
      (u : Unit {0})
      → (cleanup L W policy s).0 ≢ ok u
  unfolding cleanup
  cleanup_foreign_err policy s n f u h =
      let here = f.here in
      let never : (r : Option (NetworkPolicy OwnerReference))
          → (get_managed_network_policy L W n policy "Cleanup" s).0 ≢ ok r =
        λ r. get_managed_network_policy-err policy "Cleanup" s n f r in
      grind (arith, never)

  IsForeign-after :
      (policy : CidrPolicy OwnerReference) (s s₁ : State) (m n : String) (f : IsForeign policy m s)
      (v : ValidatedPolicy L) (np : NetworkPolicy OwnerReference) (observed : List String)
      → prepare L W policy s ≡ (ok (v, np, observed, n), s₁)
      → IsForeign policy n s₁
  IsForeign-after policy s s₁ m n f v np observed h =
      let (here, _) = prepare-eq-ok L W policy s s₁ v np observed n h in
      let same : m ≡ n = cc (f.here, here) in
      let name = managed_network_policy_name policy in
      record {
        np = f.np;
        here = here;
        found =
            ap (λ x. netpol_at x.1 n name) (sym h)
            ∙ prepare-Keeps L W C (λ _ _. Unit) policy s n name tt
            ∙ ap (λ x. netpol_at s x name) (sym same)
            ∙ f.found;
        foreign = f.foreign;
      }

  update_foreign_err :
      (policy : CidrPolicy OwnerReference) (s : State) (n : String) (f : IsForeign policy n s)
      (next : Next)
      → ((prepare L W policy >>= settle L W policy) s).0 ≢ ok next
  update_foreign_err policy s n f next h =
      let end : State = ((prepare L W policy >>= settle L W policy) s).1 in
      let ((v, np, observed, m), s₁, made, settled) =
        >>=-eq-ok (prepare L W policy) (settle L W policy) s {s' = end} (ap (λ x. (x, end)) h) in
      settle_foreign_err policy v np observed s₁ m
        (IsForeign-after policy s s₁ n m f v np observed made) next (ap (λ x. x.0) settled)

  -- When the object under the managed name is not the CIDRPolicy's own, `reconcile` changes no
  -- NetworkPolicy at all, that one included, and it does not succeed.
  pub reconcile_foreign :
      (policy : CidrPolicy OwnerReference) (s : State) (n : String) (f : IsForeign policy n s)
      → ((ns name : String) → netpol_at ((reconcile L W policy s).1) ns name ≡ netpol_at s ns name)
        × ((next : Next) → (reconcile L W policy s).0 ≢ ok next)
  unfolding reconcile
  reconcile_foreign policy s n f = elim (Bool-cases (is_some policy.metadata.deletion_timestamp)) [
    | inl going ↦ (
      λ ns name. let kept = cleanup_foreign policy s n f ns name in grind arith,
      λ next h. grind (arith, cleanup_foreign_err policy s n f),
    )
    | inr staying ↦ (
      λ ns name. rw staying (
          >>=-KeepsFrom L W C (λ _ _. Unit) (prepare L W policy) (settle L W policy) s
            (prepare-Keeps L W C (λ _ _. Unit) policy s)
            (λ (v, np, observed, m) s₁ h ns' name' _.
              settle_foreign policy v np observed s₁ m
                (IsForeign-after policy s s₁ n m f v np observed h) ns' name')
            ns name tt),
      λ next h. let never = update_foreign_err policy s n f next in grind arith,
    )
  ]
