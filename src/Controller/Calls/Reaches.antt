-- ===== src/Controller/Calls/Reaches.antt =====
-- Actions over a logged world, and the phases of the protocol that they reach.
use ipmaze.Base.{◌≡◌, refl, sym, List, ◌∷◌, Result, ok, err}
use mathlib.Core.Path.{subst}
use ipmaze.Base.Action.{Action, ◌>>=◌, ◌>>◌, convert}
use ipmaze.Api.{CidrPolicy}
use ipmaze.Libs.{Libs}
use ipmaze.World.{World}
use ipmaze.Controller.Calls.{Call, Logged, note_call}
use ipmaze.Controller.Calls.Protocol.{Phase, Course}

module _ (L : Libs) (W : World L) (policy : CidrPolicy L.OwnerReference) where
  -- The calls made are a course of the policy; after a success, its value and phase are in `R`.
  unfoldable pub Reaches :
      {A E : Type 0} → (A → Phase L W → Type 0) → Result A E × Logged L W → Type 0
  Reaches R (ok a, (_, log)) = (phase : Phase L W) × Course L W policy phase log × R a phase
  Reaches R (err e, (_, log)) = (phase : Phase L W) × Course L W policy phase log

  abbrev pub At : {A : Type 0} → Phase L W → A → Phase L W → Type 0
  At phase _ phase' = phase ≡ phase'

  module _ {A B E : Type 0} (phase_of : A → Phase L W) (R : B → Phase L W → Type 0) where
    bind_pair :
        (p : Result A E × Logged L W) (f : A → Action (Logged L W) B E)
        → Reaches (λ a. At (phase_of a) a) p
        → ((a : A) (s : Logged L W) → Course L W policy (phase_of a) s.1 → Reaches R (f a s))
        → Reaches R (((λ _. p) >>= f) p.1)
    unfolding Reaches
    bind_pair (ok a, s) f (phase, c, h) next =
        next a s (subst (λ reached. Course L W policy reached s.1) (sym h) c)
    bind_pair (err e, s) f h next = h

    pub >>=-Reaches :
        (m : Action (Logged L W) A E) (f : A → Action (Logged L W) B E) (s : Logged L W)
        → Reaches (λ a. At (phase_of a) a) (m s)
        → ((a : A) (s : Logged L W) → Course L W policy (phase_of a) s.1 → Reaches R (f a s))
        → Reaches R ((m >>= f) s)
    >>=-Reaches m f s h next = bind_pair (m s) f h next

    pub >>-Reaches :
        (m : Action (Logged L W) A E) (k : Action (Logged L W) B E) (s : Logged L W)
        → Reaches (λ a. At (phase_of a) a) (m s)
        → ((a : A) (s : Logged L W) → Course L W policy (phase_of a) s.1 → Reaches R (k s))
        → Reaches R ((m >> k) s)
    >>-Reaches m k s h next = bind_pair (m s) (λ _. k) h next

  module _ {A E F : Type 0} (R : A → Phase L W → Type 0) where
    convert_pair :
        (g : E → F) (p : Result A E × Logged L W) → Reaches R p → Reaches R (convert g (λ _. p) p.1)
    unfolding Reaches
    convert_pair g (ok a, s) h = h
    convert_pair g (err e, s) h = h

    pub convert-Reaches :
        (g : E → F) (m : Action (Logged L W) A E) (s : Logged L W)
        → Reaches R (m s)
        → Reaches R (convert g m s)
    convert-Reaches g m s h = convert_pair g (m s) h

  -- A call, its error converted, and what follows.
  module _ {A B E F : Type 0} (phase_of : A → Phase L W) (R : B → Phase L W → Type 0)
      (g : E → F) where
    pub convert->>=-Reaches :
        (m : Action (Logged L W) A E) (f : A → Action (Logged L W) B F) (s : Logged L W)
        → Reaches (λ a. At (phase_of a) a) (m s)
        → ((a : A) (s : Logged L W) → Course L W policy (phase_of a) s.1 → Reaches R (f a s))
        → Reaches R ((convert g m >>= f) s)
    convert->>=-Reaches m f s h next =
        >>=-Reaches phase_of R (convert g m) f s (convert-Reaches (λ a. At (phase_of a) a) g m s h)
          next

    pub convert->>-Reaches :
        (m : Action (Logged L W) A E) (k : Action (Logged L W) B F) (s : Logged L W)
        → Reaches (λ a. At (phase_of a) a) (m s)
        → ((a : A) (s : Logged L W) → Course L W policy (phase_of a) s.1 → Reaches R (k s))
        → Reaches R ((convert g m >> k) s)
    convert->>-Reaches m k s h next =
        >>-Reaches phase_of R (convert g m) k s (convert-Reaches (λ a. At (phase_of a) a) g m s h)
          next

  module _ {A E : Type 0} where
    noted :
        (phase_of : Result A E → Phase L W) (p : Result A E × W.State)
        (entry : Result A E → Call L W) (log : List (Call L W))
        → ((r : Result A E) → Course L W policy (phase_of r) (entry r ∷ log))
        → Reaches (λ a. At (phase_of (ok a)) a) (p.0, (p.1, entry p.0 ∷ log))
    unfolding Reaches
    noted phase_of (ok a, s) entry log c = (phase_of (ok a), c (ok a), refl)
    noted phase_of (err e, s) entry log c = (phase_of (err e), c (err e))

    -- A call that the protocol allows, whatever it returns.
    pub note_call-Reaches :
        (phase_of : Result A E → Phase L W) (m : Action W.State A E) (entry : Result A E → Call L W)
        (s : Logged L W)
        → ((r : Result A E) → Course L W policy (phase_of r) (entry r ∷ s.1))
        → Reaches (λ a. At (phase_of (ok a)) a) (note_call L W m entry s)
    note_call-Reaches phase_of m entry (s, log) c = noted phase_of (m s) entry log c

    -- No call.
    pub ok-Reaches :
        (R : A → Phase L W → Type 0) (phase : Phase L W) (p : Result A E × Logged L W) (a : A)
        → p.0 ≡ ok a
        → Course L W policy phase p.1.1
        → R a phase
        → Reaches R p
    unfolding Reaches
    ok-Reaches R phase (ok b, s) a same c h = (phase, c, subst (λ x. R x phase) (sym (cc same)) h)
    ok-Reaches R phase (err e, s) a same c h = (phase, c)

    pub err-Reaches :
        (R : A → Phase L W → Type 0) (phase : Phase L W) (p : Result A E × Logged L W) (e : E)
        → p.0 ≡ err e
        → Course L W policy phase p.1.1
        → Reaches R p
    unfolding Reaches
    err-Reaches R phase (ok a, s) e same c = cc
    err-Reaches R phase (err _, s) e same c = (phase, c)
