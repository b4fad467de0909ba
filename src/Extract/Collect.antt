-- ===== src/Extract/Collect.antt =====
-- The loop of `extract_cidrs`: it parses every value and keeps each text's first occurrence.
use ipmaze.Base.{
  String, true, false, ◌≡◌, ◌≢◌, refl, ◌∙◌, inl, inr, ◌⊎◌, ◌↔◌, List, [], ◌∷◌, ◌++◌, arith,
  Bool-cases, All, In, Result, ok, err, ◌>>=◌, Result-cases, string_eq,
}
use mathlib.Core.Path.{subst}
use mathlib.Core.List.{append-nil, append_assoc}
use ipmaze.Libs.{Libs}
use ipmaze.Extract.{NormalizedCidr, ExtractionError, contains, parse_cidr, collect_cidrs}
use ipmaze.Extract.Order.{renderings, IsDistinct}

-- The elements whose text has not been seen, first occurrences only.
unfoldable pub fresh : List String → List NormalizedCidr → List NormalizedCidr
fresh seen [] = []
fresh seen (c ∷ cs) = elim (contains c.rendered seen) [
  | true ↦ fresh seen cs
  | false ↦ c ∷ fresh (c.rendered ∷ seen) cs
]

pub contains_iff : (s : String) (seen : List String) → (contains s seen ≡ true) ↔ In s seen
contains_iff s [] = (λ h. cc, λ h. absurd h)
contains_iff s (t ∷ seen) =
    (λ h. ground (arith, (contains_iff s seen).0), λ h. ground (arith, (contains_iff s seen).1))

-- What `fresh` gives has none of the texts seen before.
All-fresh :
    (s : String) (seen : List String) (cs : List NormalizedCidr)
    → In s seen
    → All (λ c. s ≢ c.rendered) (fresh seen cs)
unfolding fresh
All-fresh s seen [] m = tt
All-fresh s seen (c ∷ cs) m = elim (Bool-cases (contains c.rendered seen)) [
  | inl old ↦ rw (old, fresh) (All-fresh s seen cs m)
  | inr new ↦
      rw (new, fresh)
        (
          λ e. cc (new, (contains_iff c.rendered seen).1 (subst (λ t. In t seen) e m)),
          All-fresh s (c.rendered ∷ seen) cs (inr m),
        )
]

pub fresh-IsDistinct : (seen : List String) (cs : List NormalizedCidr) → IsDistinct (fresh seen cs)
unfolding fresh
fresh-IsDistinct seen [] = tt
fresh-IsDistinct seen (c ∷ cs) = elim (Bool-cases (contains c.rendered seen)) [
  | inl old ↦ rw (old, fresh) (fresh-IsDistinct seen cs)
  | inr new ↦
      rw (new, fresh)
        (
          All-fresh c.rendered (c.rendered ∷ seen) cs (inl refl),
          fresh-IsDistinct (c.rendered ∷ seen) cs,
        )
]

kept :
    (s : String) (c : NormalizedCidr) (cs ds : List NormalizedCidr)
    → (In s (renderings ds) → In s (renderings cs))
    → In s (renderings (c ∷ ds))
    → In s (renderings (c ∷ cs))
kept s c cs ds f (inl e) = inl e
kept s c cs ds f (inr m) = inr (f m)

-- Every text is still there or was seen before, and nothing else is there.
pub In-of_In-fresh :
    (s : String) (seen : List String) (cs : List NormalizedCidr)
    → In s (renderings (fresh seen cs))
    → In s (renderings cs)
unfolding fresh
In-of_In-fresh s seen [] m = m
In-of_In-fresh s seen (c ∷ cs) m = elim (Bool-cases (contains c.rendered seen)) [
  | inl old ↦ inr (In-of_In-fresh s seen cs (rw (old, fresh) at m))
  | inr new ↦
      kept s c cs (fresh (c.rendered ∷ seen) cs) (In-of_In-fresh s (c.rendered ∷ seen) cs)
        (rw (new, fresh) at m)
]

pub In-fresh :
    (s : String) (seen : List String) (cs : List NormalizedCidr)
    → In s (renderings cs)
    → In s seen ⊎ In s (renderings (fresh seen cs))
unfolding fresh
In-fresh s seen [] m = absurd m
In-fresh s seen (c ∷ cs) m = elim (Bool-cases (contains c.rendered seen)) [
  | inl old ↦
      rw (old, fresh)
        (ground (
          arith,
          In-fresh s seen cs,
          (contains_iff c.rendered seen).0 old,
          (contains_iff s seen).0,
          (contains_iff s seen).1,
        ))
  | inr new ↦ rw (new, fresh) (ground (arith, In-fresh s (c.rendered ∷ seen) cs))
]

module _ (L : Libs) where
  open L use {Variable}

  -- All values parsed, or the first error.
  unfoldable pub parse_all : List Variable → Result (List NormalizedCidr) (ExtractionError L)
  parse_all [] = ok []
  parse_all (value ∷ values) = do c ← parse_cidr L value; cs ← parse_all values; ok (c ∷ cs)

  >>=-congr :
      (r : Result (List NormalizedCidr) (ExtractionError L)) (c : NormalizedCidr)
      (f g : List NormalizedCidr → Result (List NormalizedCidr) (ExtractionError L))
      → ((cs : List NormalizedCidr) → f cs ≡ g (c ∷ cs))
      → (r >>= f) ≡ ((r >>= λ cs. ok (c ∷ cs)) >>= g)
  >>=-congr (ok cs) c f g h = h cs
  >>=-congr (err e) c f g h = refl

  pub collect_cidrs-eq-fresh :
      (seen : List String) (cidrs : List NormalizedCidr) (values : List Variable)
      → collect_cidrs L seen cidrs values ≡ (parse_all values >>= λ cs. ok (cidrs ++ fresh seen cs))
  unfolding collect_cidrs parse_all fresh
  collect_cidrs-eq-fresh seen cidrs [] = rw append-nil
  collect_cidrs-eq-fresh seen cidrs (value ∷ values) = elim (Result-cases (parse_cidr L value)) [
    | inr (e, bad) ↦ rw bad
    | inl (c, good) ↦ rw good (elim (Bool-cases (contains c.rendered seen)) [
      | inl old ↦ rw old (
          collect_cidrs-eq-fresh seen cidrs values
          ∙ >>=-congr (parse_all values) c _ (λ cs. ok (cidrs ++ fresh seen cs))
              (λ cs. rw (old, fresh)))
      | inr new ↦ rw new (
          collect_cidrs-eq-fresh (c.rendered ∷ seen) (cidrs ++ c ∷ []) values
          ∙ >>=-congr (parse_all values) c _ (λ cs. ok (cidrs ++ fresh seen cs))
              (λ cs. rw (new, fresh, append_assoc)))
    ])
  ]
