-- ===== src/Controller/Cluster.antt =====
-- What the controller relies on of the API server's NetworkPolicy objects, and the actions that
-- leave such objects as they are.
pub mod Keeps
use ipmaze.Base.{some, map_option, String, Option, List, ◌≡◌, ok, err, ◌⊎◌, ◌≢◌}
use ipmaze.Api.{CidrPolicy, CidrPolicyStatus}
use ipmaze.Networking.{NetworkPolicy}
use ipmaze.Libs.{Libs}
use ipmaze.World.{World, Event}

-- The object at a namespace and a name. Only the calls that apply or delete one change it, and
-- those only at the namespace and the name that they are given; a read returns it, and a forced
-- apply that succeeds leaves the spec that was applied, empty lists of rules included.
pub record Cluster (L : Libs) (W : World L) : Type 0 where
  pub netpol_at : W.State → String → String → Option (NetworkPolicy L.OwnerReference)
  pub kept_by_send :
      (u : L.Url) (s : W.State) (ns name : String)
      → netpol_at ((W.send u s).1) ns name ≡ netpol_at s ns name
  pub kept_by_text :
      (r : W.Response) (s : W.State) (ns name : String)
      → netpol_at ((W.text r s).1) ns name ≡ netpol_at s ns name
  pub kept_by_bytes :
      (r : W.Response) (s : W.State) (ns name : String)
      → netpol_at ((W.bytes r s).1) ns name ≡ netpol_at s ns name
  pub kept_by_read :
      (n m : String) (s : W.State) (ns name : String)
      → netpol_at ((W.get_opt_network_policy n m s).1) ns name ≡ netpol_at s ns name
  pub read :
      (n m : String) (s s' : W.State) (found : Option (NetworkPolicy L.OwnerReference))
      → W.get_opt_network_policy n m s ≡ (ok found, s')
      → found ≡ netpol_at s n m
  pub kept_by_get :
      (n m : String) (s : W.State) (ns name : String)
      → netpol_at ((W.get_cidr_policy n m s).1) ns name ≡ netpol_at s ns name
  pub kept_by_patch_status :
      (n m manager : String) (status : CidrPolicyStatus) (s : W.State) (ns name : String)
      → netpol_at ((W.patch_cidr_policy_status n m manager status s).1) ns name
        ≡ netpol_at s ns name
  pub kept_by_publish :
      (e : Event W.ObjectReference) (r : W.ObjectReference) (s : W.State) (ns name : String)
      → netpol_at ((W.publish e r s).1) ns name ≡ netpol_at s ns name
  pub kept_by_apply :
      (n m manager : String) (np : NetworkPolicy L.OwnerReference) (s : W.State) (ns name : String)
      → (ns ≢ n) ⊎ (name ≢ m)
      → netpol_at ((W.apply_network_policy n m manager np s).1) ns name ≡ netpol_at s ns name
  pub applied :
      (n m manager : String) (np : NetworkPolicy L.OwnerReference) (s : W.State) (u : Unit {0})
      → (W.apply_network_policy n m manager np s).0 ≡ ok u
      → map_option (λ o. o.spec) (netpol_at ((W.apply_network_policy n m manager np s).1) n m)
        ≡ some np.spec
  pub kept_by_delete :
      (n m : String) (s : W.State) (ns name : String)
      → (ns ≢ n) ⊎ (name ≢ m)
      → netpol_at ((W.delete_network_policy n m s).1) ns name ≡ netpol_at s ns name
