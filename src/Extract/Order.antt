-- ===== src/Extract/Order.antt =====
-- The order of texts, and that `sort` puts CIDRs with distinct texts in strictly ascending order.
use Prim.Native.Nat.{Ordering, compare as compare_ℕ}
use Prim.Native.String.{[], ◌∷◌, compare}
use Prim.Native.String.compare
use text.Mathlib.TextEquality.{path_by_compare}
use text.Mathlib.TextPositions.{compare_refl}
use ipmaze.Base.{
  Char, code, String, true, false, ◌≡◌, ◌≢◌, inl, inr, ◌⊎◌, ◌↔◌, List, [], ◌∷◌, map, arith,
  Bool-cases, All, In,
}
use ipmaze.Extract.{NormalizedCidr, compare_cidr, le_cidr, insert_sorted, sort}

abbrev pub Precedes : String → String → Type 0
Precedes s t = compare s t ≡ Ordering.lt

pub not-Precedes_self : (s : String) → ¬ Precedes s s
not-Precedes_self s h = cc (compare_refl s)

-- Text that begins with characters in order, or with the same one and then in order.
module _ (c d : Char) (s t : String) where
  Precedes-cons :
      Precedes (c ∷ s) (d ∷ t)
      → (compare_ℕ (code c) (code d) ≡ Ordering.lt)
        ⊎ ((compare_ℕ (code c) (code d) ≡ Ordering.eq) × Precedes s t)
  Precedes-cons h = ground (arith, compare.cons-cons c d s t)

pub Precedes-trans : (s t u : String) → Precedes s t → Precedes t u → Precedes s u
Precedes-trans [] [] u p q = absurd (not-Precedes_self [] p)
Precedes-trans [] (d ∷ t) [] p q = cc (compare.cons-nil d t)
Precedes-trans [] (d ∷ t) (e ∷ u) p q = compare.nil-cons e u
Precedes-trans (c ∷ s) [] u p q = cc (compare.cons-nil c s)
Precedes-trans (c ∷ s) (d ∷ t) [] p q = cc (compare.cons-nil d t)
Precedes-trans (c ∷ s) (d ∷ t) (e ∷ u) p q =
    rw compare.cons-cons
      (ground (arith, Precedes-cons c d s t p, Precedes-cons d e t u q, Precedes-trans s t u))

pub Precedes-of_gt : (s t : String) → compare s t ≡ Ordering.gt → Precedes t s
Precedes-of_gt [] [] h = cc (compare.nil-nil)
Precedes-of_gt [] (d ∷ t) h = cc (compare.nil-cons d t)
Precedes-of_gt (c ∷ s) [] h = compare.nil-cons c s
Precedes-of_gt (c ∷ s) (d ∷ t) h =
    rw compare.cons-cons (ground (arith, compare.cons-cons c d s t, Precedes-of_gt s t))

abbrev pub renderings : List NormalizedCidr → List String
renderings = map (λ c. c.rendered)

-- Strictly ascending texts: sorted, and none occurs twice.
abbrev pub IsAscending : List NormalizedCidr → Type 0
IsAscending [] = Unit
IsAscending (x ∷ xs) = All (λ y. Precedes x.rendered y.rendered) xs × IsAscending xs

abbrev pub IsNew : NormalizedCidr → List NormalizedCidr → Type 0
IsNew x = All (λ y. x.rendered ≢ y.rendered)

abbrev pub IsDistinct : List NormalizedCidr → Type 0
IsDistinct [] = Unit
IsDistinct (x ∷ xs) = IsNew x xs × IsDistinct xs

pub All-insert_sorted :
    (P : NormalizedCidr → Type 0) (x : NormalizedCidr) (ys : List NormalizedCidr)
    → P x
    → All P ys
    → All P (insert_sorted x ys)
unfolding insert_sorted
All-insert_sorted P x [] p h = (p, tt)
All-insert_sorted P x (y ∷ ys) p h = elim (Bool-cases (le_cidr x y)) [
  | inl le ↦ rw le (p, h)
  | inr gt ↦ rw gt (h.0, All-insert_sorted P x ys p h.1)
]

le_cidr-Precedes :
    (x y : NormalizedCidr)
    → x.rendered ≢ y.rendered
    → le_cidr x y ≡ true
    → Precedes x.rendered y.rendered
unfolding compare_cidr
le_cidr-Precedes x y ne h = ground (arith, path_by_compare x.rendered y.rendered)

not-le_cidr-Precedes :
    (x y : NormalizedCidr)
    → x.rendered ≢ y.rendered
    → le_cidr x y ≡ false
    → Precedes y.rendered x.rendered
unfolding compare_cidr
not-le_cidr-Precedes x y ne h =
    ground (arith, path_by_compare x.rendered y.rendered, Precedes-of_gt x.rendered y.rendered)

All-Precedes-trans :
    (x y : NormalizedCidr) (ys : List NormalizedCidr)
    → Precedes x.rendered y.rendered
    → All (λ z. Precedes y.rendered z.rendered) ys
    → All (λ z. Precedes x.rendered z.rendered) ys
All-Precedes-trans x y [] p h = tt
All-Precedes-trans x y (z ∷ zs) p h =
    (Precedes-trans x.rendered y.rendered z.rendered p h.0, All-Precedes-trans x y zs p h.1)

insert_sorted-IsAscending :
    (x : NormalizedCidr) (ys : List NormalizedCidr)
    → IsNew x ys
    → IsAscending ys
    → IsAscending (insert_sorted x ys)
unfolding insert_sorted
insert_sorted-IsAscending x [] new h = (tt, tt)
insert_sorted-IsAscending x (y ∷ ys) new h = elim (Bool-cases (le_cidr x y)) [
  | inl le ↦
      let p = le_cidr-Precedes x y new.0 le in rw le ((p, All-Precedes-trans x y ys p h.0), h)
  | inr gt ↦ rw gt (
    All-insert_sorted (λ z. Precedes y.rendered z.rendered) x ys (not-le_cidr-Precedes x y new.0 gt)
        h.0,
    insert_sorted-IsAscending x ys new.1 h.1,
  )
]

All-sort : (P : NormalizedCidr → Type 0) (xs : List NormalizedCidr) → All P xs → All P (sort xs)
unfolding sort
All-sort P [] h = tt
All-sort P (x ∷ xs) h = All-insert_sorted P x (sort xs) h.0 (All-sort P xs h.1)

pub sort-IsAscending : (xs : List NormalizedCidr) → IsDistinct xs → IsAscending (sort xs)
unfolding sort
sort-IsAscending [] h = tt
sort-IsAscending (x ∷ xs) h =
    insert_sorted-IsAscending x (sort xs) (All-sort (λ y. x.rendered ≢ y.rendered) xs h.0)
      (sort-IsAscending xs h.1)

-- Sorting keeps the texts.
In-insert_sorted :
    (s : String) (x : NormalizedCidr) (ys : List NormalizedCidr)
    → In s (renderings (insert_sorted x ys)) ↔ ((s ≡ x.rendered) ⊎ In s (renderings ys))
unfolding insert_sorted
In-insert_sorted s x [] = (λ h. h, λ h. h)
In-insert_sorted s x (y ∷ ys) = elim (Bool-cases (le_cidr x y)) [
  | inl le ↦ rw le (λ h. h, λ h. h)
  | inr gt ↦ rw gt (
    λ h. ground (arith, (In-insert_sorted s x ys).0),
    λ h. ground (arith, (In-insert_sorted s x ys).1),
  )
]

pub In-sort :
    (s : String) (xs : List NormalizedCidr) → In s (renderings (sort xs)) ↔ In s (renderings xs)
unfolding sort
In-sort s [] = (λ h. h, λ h. h)
In-sort s (x ∷ xs) = (
  λ h. ground (arith, (In-insert_sorted s x (sort xs)).0, (In-sort s xs).0),
  λ h. ground (arith, (In-insert_sorted s x (sort xs)).1, (In-sort s xs).1),
)
