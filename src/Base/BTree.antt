-- ===== src/Base/BTree.antt =====
-- `BTreeSet` and `BTreeMap`: their elements or entries in ascending order.
use Prim.Native.Nat.{Ordering}
use ipmaze.Base.{Option, none, some, List, [], ◌∷◌}

module _ {A : Type 0} (cmp : A → A → Ordering) where
  -- `BTreeSet::insert`
  abbrev pub set_insert : A → List A → List A
  set_insert a [] = a ∷ []
  set_insert a (b ∷ bs) = elim (cmp a b) [
    | Ordering.lt ↦ a ∷ b ∷ bs
    | Ordering.eq ↦ b ∷ bs
    | Ordering.gt ↦ b ∷ set_insert a bs
  ]

  -- Inserts the elements from the first on, as `collect` and a loop do.
  abbrev pub set_extend : List A → List A → List A
  set_extend set [] = set
  set_extend set (a ∷ more) = set_extend (set_insert a set) more

  module _ {V : Type 0} where
    -- `BTreeMap::insert`
    abbrev pub map_insert : A → V → List (A × V) → List (A × V)
    map_insert a v [] = (a, v) ∷ []
    map_insert a v ((b, w) ∷ m) = elim (cmp a b) [
      | Ordering.lt ↦ (a, v) ∷ (b, w) ∷ m
      | Ordering.eq ↦ (b, v) ∷ m
      | Ordering.gt ↦ (b, w) ∷ map_insert a v m
    ]

    -- `BTreeMap::get`
    abbrev pub map_get : A → List (A × V) → Option V
    map_get a [] = none
    map_get a ((b, w) ∷ m) = elim (cmp a b) [
      | Ordering.lt ↦ none
      | Ordering.eq ↦ some w
      | Ordering.gt ↦ map_get a m
    ]
