-- ===== src/Program/Start.antt =====
-- What the started program does to the cluster, and when it comes back to a CIDRPolicy.
use ipmaze.Base.{ℕ, String, Option, ◌≡◌, ◌≤◌, refl, ok, err, some, none, Result, arith}
use ipmaze.Base.Action.{Action}
use ipmaze.Api.{CidrPolicy}
use ipmaze.Libs.{Libs}
use ipmaze.World.{World}
use ipmaze.Networking.{NetworkPolicy}
use ipmaze.Controller.{Next, reconcile, error_policy}
use ipmaze.Controller.Cluster.{Cluster}
use ipmaze.Controller.Errors.{ReconcileError}
use ipmaze.Controller.Interleaved.{interleaved, Leave, Step-IsThere}
use ipmaze.Controller.Runs.{IsSpared, Step, Step-IsSpared, reconciles, reports}
use ipmaze.Controller.Resync.{IsLater, reconcile-IsLater}
use ipmaze.Program.{
  Host, Command, ControllerContext, generate_crd, run, main, run_controller, context_of, from_secs,
}

module _ (L : Libs) (W : World L) where
  open L use {OwnerReference}
  open W use {State}

  -- What the stream makes of a reconciliation: after an error `error_policy` names the next time,
  -- and its task runs.
  abbrev followed :
      ℕ → CidrPolicy OwnerReference → Result Next (ReconcileError L W) × State → Next × State
  followed requeue_after policy (ok next, s) = (next, s)
  followed requeue_after policy (err e, s) =
      let (next, task) = error_policy L W requeue_after policy e in (next, (task s).1)

  abbrev pub cycle : ℕ → CidrPolicy OwnerReference → State → Next × State
  cycle requeue_after policy s = followed requeue_after policy (reconcile L W policy s)

  followed-IsLater :
      (policy : CidrPolicy OwnerReference) (requeue_seconds : ℕ)
      (p : Result Next (ReconcileError L W) × State)
      → 1 ≤ requeue_seconds
      → ((next : Next) → p.0 ≡ ok next → IsLater L W next)
      → IsLater L W ((followed (from_secs requeue_seconds) policy p).0)
  unfolding error_policy from_secs
  followed-IsLater policy requeue_seconds (ok next, s) positive h = h next refl
  followed-IsLater policy requeue_seconds (err e, s) positive h = omega arith

  -- A CIDRPolicy that is not being deleted is due again after a delay that is not zero, however its
  -- reconciliation ends: after an error too, where the delay is the program's `requeue_seconds`,
  -- which is taken not to be zero.
  pub cycle-IsLater :
      (policy : CidrPolicy OwnerReference) (requeue_seconds : ℕ) (s : State)
      → 1 ≤ requeue_seconds
      → policy.metadata.deletion_timestamp ≡ none
      → IsLater L W ((cycle (from_secs requeue_seconds) policy s).0)
  cycle-IsLater policy requeue_seconds s positive staying =
      followed-IsLater policy requeue_seconds (reconcile L W policy s) positive
        (λ next h. (reconcile-IsLater L W policy s next h).0 staying)

module _ (L : Libs) (W : World L)
    (view : W.State → String → String → Option (NetworkPolicy L.OwnerReference))
    (H : Host L W) where
  open L use {OwnerReference}
  open W use {State}

  -- The stream calls nothing but the two functions that it is given, on CIDRPolicies that are
  -- watched; printing changes no object of the cluster.
  pub record IsConfined (Watched : CidrPolicy OwnerReference → Type 0) : Type 1 where
    pub confined :
        (Keeps : State → Type 0) (context : ControllerContext H.Client H.HttpClient H.Recorder)
        (r : CidrPolicy OwnerReference → Action State Next (ReconcileError L W))
        (p : CidrPolicy OwnerReference
          → ReconcileError L W
          → Next × Action State (Unit {0}) W.KubeError)
        (s : State)
        → ((policy : CidrPolicy OwnerReference) (s : State)
            → Watched policy
            → Keeps s
            → Keeps ((r policy s).1))
        → ((policy : CidrPolicy OwnerReference) (e : ReconcileError L W) (s : State)
            → Watched policy
            → Keeps s
            → Keeps (((p policy e).1 s).1))
        → Keeps s
        → Keeps (H.run_stream context r p s)
    pub kept_by_print :
        (text : String) (s : State) (ns name : String)
        → view (H.print text s) ns name ≡ view s ns name

  -- The program keeps what each of the controller's steps keeps.
  main_keeps :
      (Watched : CidrPolicy OwnerReference → Type 0) (command : Command) (s : State)
      (ns name : String) (np : NetworkPolicy OwnerReference)
      → IsConfined Watched
      → ((policy : CidrPolicy OwnerReference) (s s' : State)
          → Watched policy
          → Step L W policy s s'
          → view s ns name ≡ some np
          → view s' ns name ≡ some np)
      → view s ns name ≡ some np
      → view ((main L W H command s).1) ns name ≡ some np
  unfolding main run_controller
  main_keeps Watched generate_crd s ns name np laws keep there =
      let printed : (text : String) → view (H.print text s) ns name ≡ view s ns name =
        λ text. laws.kept_by_print text s ns name in
      grind (arith, printed)
  main_keeps Watched (run requeue_seconds) s ns name np laws keep there =
      let kept : (client : H.Client) (http_client : H.HttpClient)
          → view
              (H.run_stream
                (context_of L W H (record { requeue_after = from_secs requeue_seconds }) client
                  http_client)
                (reconcile L W)
                (error_policy L W
                  (context_of L W H (record { requeue_after = from_secs requeue_seconds }) client
                    http_client).requeue_after)
                s)
              ns name
            ≡ some np =
        λ client http_client.
          laws.confined (λ s₁. view s₁ ns name ≡ some np) _ _ _ s
            (λ policy s₁ watched h. keep policy s₁ _ watched (reconciles policy s₁) h)
            (λ policy e s₁ watched h. keep policy s₁ _ watched (reports _ policy e s₁) h) there in
      grind (arith, kept)

module _ (L : Libs) (W : World L) (C : Cluster L W) where
  open L use {OwnerReference}
  open W use {State}
  open C use {netpol_at}

  -- Whichever command is given, and whether or not the program starts well: a NetworkPolicy that is
  -- none of the watched CIDRPolicies', by its place or by its marks, is what it was when the
  -- program ends, provided that the controller runtime calls nothing but the two functions given.
  pub main-IsSpared :
      (H : Host L W) (Watched : CidrPolicy OwnerReference → Type 0) (command : Command) (s : State)
      (ns name : String) (np : NetworkPolicy OwnerReference)
      → IsConfined L W netpol_at H Watched
      → ((policy : CidrPolicy OwnerReference) → Watched policy → IsSpared L W C ns name np policy)
      → netpol_at s ns name ≡ some np
      → netpol_at ((main L W H command s).1) ns name ≡ some np
  main-IsSpared H Watched command s ns name np laws spared =
      main_keeps L W netpol_at H Watched command s ns name np laws
        (λ policy s₁ s₂ watched step there.
          Step-IsSpared L W C policy s₁ s₂ ns name np step there (spared policy watched))

  -- Whichever command is given, and whether or not the program starts well, and whatever others, and
  -- other tasks of the program, do after each single call that the controller makes: a NetworkPolicy
  -- that is none of the watched CIDRPolicies', by its place or by its marks, and that the others
  -- leave as it is, is what it was when the program ends, provided that the controller
  -- runtime calls nothing but the two functions given.
  pub main-interleaved :
      (meddle : ℕ → State → State) (H : Host L (interleaved L W meddle))
      (Watched : CidrPolicy OwnerReference → Type 0) (command : Command) (s : State × ℕ)
      (ns name : String) (np : NetworkPolicy OwnerReference)
      → Leave L W C meddle ns name np
      → IsConfined L (interleaved L W meddle) (λ x. netpol_at x.0) H Watched
      → ((policy : CidrPolicy OwnerReference) → Watched policy → IsSpared L W C ns name np policy)
      → netpol_at s.0 ns name ≡ some np
      → netpol_at ((main L (interleaved L W meddle) H command s).1.0) ns name ≡ some np
  main-interleaved meddle H Watched command s ns name np leave laws spared =
      main_keeps L (interleaved L W meddle) (λ x. netpol_at x.0) H Watched command s ns name np laws
        (λ policy s₁ s₂ watched step there.
          Step-IsThere L W C meddle ns name np leave policy s₁ s₂ step (spared policy watched)
            there)
