-- ===== src/Extract/Abstract.antt =====
-- The set of CIDR texts that a list stands for: in whatever order, and however often.
use mathlib.Core.HLevel.{hedberg}
use mathlib.Core.Quot
use mathlib.Core.Quot.{Quot, Quot-set}
use ipmaze.Base.{String, string_dec, ◌≡◌, sym, ap, ◌∙◌, ◌↔◌, List, [], In, ok}
use ipmaze.Libs.{Libs}
use ipmaze.Extract.{NormalizedCidr, sort, query_values, extract_cidrs}
use ipmaze.Extract.Order.{renderings, IsAscending, sort-IsAscending}
use ipmaze.Extract.Collect.{fresh, fresh-IsDistinct, parse_all}
use ipmaze.Extract.Canonical.{
  IsAscending-ext, In-sort-fresh, extract_cidrs-eq-ok, extracted-IsAscending,
}

abbrev pub SameTexts : List NormalizedCidr → List NormalizedCidr → Type 0
SameTexts xs ys = (s : String) → In s (renderings xs) ↔ In s (renderings ys)

abbrev pub CidrSet : Type 0
CidrSet = Quot SameTexts

abbrev pub set_of : List NormalizedCidr → CidrSet
set_of cs = Quot.mk cs

-- The sorted list of a set.
abbrev listed : List NormalizedCidr → List String
listed cs = renderings (sort (fresh [] cs))

listed-SameTexts : (xs ys : List NormalizedCidr) → SameTexts xs ys → listed xs ≡ listed ys
listed-SameTexts xs ys same =
    IsAscending-ext (sort (fresh [] xs)) (sort (fresh [] ys))
      (sort-IsAscending (fresh [] xs) (fresh-IsDistinct [] xs))
      (sort-IsAscending (fresh [] ys) (fresh-IsDistinct [] ys))
      (λ s. (
        λ m. (In-sort-fresh s ys).1 ((same s).0 ((In-sort-fresh s xs).0 m)),
        λ m. (In-sort-fresh s xs).1 ((same s).1 ((In-sort-fresh s ys).0 m)),
      ))

texts_discrete : Discrete (List String)
texts_discrete = hlevel string_dec

pub listing : CidrSet → List String
listing = Quot.lift (hedberg texts_discrete) listed listed-SameTexts

module _ (L : Libs) where
  open L use {Value, Expression, Variable}

  -- When `extract_cidrs` succeeds, its texts are strictly ascending: sorted, with no duplicates. They
  -- stand for the same set as the CIDRs that the selected values parse to, and they are the one
  -- list that is made of that set, whatever the order of the values and however often each occurs.
  pub extract_cidrs-IsAscending :
      (e : Expression) (p : Value) (out : List NormalizedCidr)
      → extract_cidrs L e p ≡ ok out
      → IsAscending out
        × (vs : List Variable) × (cs : List NormalizedCidr) × (query_values L e p ≡ ok vs)
        × (parse_all L vs ≡ ok cs)
        × (set_of out ≡ set_of cs)
        × (renderings out ≡ listing (set_of cs))
  unfolding listing
  extract_cidrs-IsAscending e p out h =
      let (vs, cs, selected, parsed, sorted) = extract_cidrs-eq-ok L e p out h in
      (
        extracted-IsAscending L e p out h,
        vs,
        cs,
        selected,
        parsed,
        ap set_of (sym sorted) ∙ Quot.sound (λ s. In-sort-fresh s cs),
        ap renderings (sym sorted),
      )
