-- ===== src/Extract/Canonical.antt =====
-- What `extract_cidrs` returns: an ascending list of exactly the selected CIDRs, or the first error.
use ipmaze.Base.{
  String, ◌≡◌, ◌≢◌, refl, sym, ap, ◌∙◌, inl, inr, ◌⊎◌, ◌↔◌, List, [], ◌∷◌, ◌++◌, All, In, ok, err,
  ◌>>=◌, >>=-eq-ok,
}
use mathlib.Core.Path.{subst, ap₂}
use ipmaze.Libs.{Libs}
use ipmaze.Extract.{NormalizedCidr, ExtractionError, parse_cidr, sort, query_values, extract_cidrs}
use ipmaze.Extract.Order.{
  Precedes, Precedes-trans, not-Precedes_self, renderings, IsAscending, sort-IsAscending, In-sort,
}
use ipmaze.Extract.Collect.{
  fresh, fresh-IsDistinct, In-fresh, In-of_In-fresh, parse_all, collect_cidrs-eq-fresh,
}

In-Precedes :
    (s t : String) (xs : List NormalizedCidr)
    → All (λ y. Precedes t y.rendered) xs
    → In s (renderings xs)
    → Precedes t s
In-Precedes s t (x ∷ xs) h (inl e) = subst (Precedes t) (sym e) h.0
In-Precedes s t (x ∷ xs) h (inr m) = In-Precedes s t xs h.1 m
In-Precedes s t [] h m = absurd m

-- A text of a list other than the head's comes after the head's.
In-tail :
    (s : String) (x : NormalizedCidr) (xs : List NormalizedCidr)
    → s ≢ x.rendered
    → In s (renderings (x ∷ xs))
    → In s (renderings xs)
In-tail s x xs ne (inl e) = absurd (ne e)
In-tail s x xs ne (inr m) = m

module _ (x y : NormalizedCidr) (xs ys : List NormalizedCidr) where
  heads_eq :
      IsAscending (x ∷ xs)
      → IsAscending (y ∷ ys)
      → In x.rendered (renderings (y ∷ ys))
      → In y.rendered (renderings (x ∷ xs))
      → x.rendered ≡ y.rendered
  heads_eq a b (inl e) n = e
  heads_eq a b (inr m) (inl e) = sym e
  heads_eq a b (inr m) (inr n) = absurd (
      not-Precedes_self x.rendered (
        Precedes-trans x.rendered y.rendered x.rendered (In-Precedes y.rendered x.rendered xs a.0 n)
          (In-Precedes x.rendered y.rendered ys b.0 m)))

  tails-In :
      IsAscending (x ∷ xs)
      → x.rendered ≡ y.rendered
      → (s : String) → (In s (renderings (x ∷ xs)) → In s (renderings (y ∷ ys)))
      → In s (renderings xs)
      → In s (renderings ys)
  tails-In a e s f m =
      In-tail s y ys
        (λ same.
          not-Precedes_self s
            (subst (λ t. Precedes t s) (e ∙ sym same) (In-Precedes s x.rendered xs a.0 m)))
        (f (inr m))

-- An ascending list is determined by the texts that occur in it.
pub IsAscending-ext :
    (xs ys : List NormalizedCidr)
    → IsAscending xs
    → IsAscending ys
    → ((s : String) → In s (renderings xs) ↔ In s (renderings ys))
    → renderings xs ≡ renderings ys
IsAscending-ext [] [] a b f = refl
IsAscending-ext [] (y ∷ ys) a b f = absurd ((f y.rendered).1 (inl refl))
IsAscending-ext (x ∷ xs) [] a b f = absurd ((f x.rendered).0 (inl refl))
IsAscending-ext (x ∷ xs) (y ∷ ys) a b f =
    let e = heads_eq x y xs ys a b ((f x.rendered).0 (inl refl)) ((f y.rendered).1 (inl refl)) in
    ap₂ ◌∷◌ e (
      IsAscending-ext xs ys a.1 b.1
        (λ s. (tails-In x y xs ys a e s (f s).0, tails-In y x ys xs b (sym e) s (f s).1)))

pub In-sort-fresh :
    (s : String) (cs : List NormalizedCidr)
    → In s (renderings (sort (fresh [] cs))) ↔ In s (renderings cs)
In-sort-fresh s cs = (
  λ m. In-of_In-fresh s [] cs ((In-sort s (fresh [] cs)).0 m),
  λ m. (In-sort s (fresh [] cs)).1 (unseen (In-fresh s [] cs m)),
)
  where
    unseen : ⊥ ⊎ In s (renderings (fresh [] cs)) → In s (renderings (fresh [] cs))
    unseen (inl f) = absurd f
    unseen (inr m) = m

module _ (L : Libs) where
  open L use {Value, Expression, Variable}

  -- One of the values parses to a CIDR with this text.
  abbrev pub Selects : String → List Variable → Type 0
  Selects s [] = ⊥
  Selects s (v ∷ vs) =
      ((c : NormalizedCidr) × (parse_cidr L v ≡ ok c) × (s ≡ c.rendered)) ⊎ Selects s vs

  head_or_rest :
      (s : String) (v : Variable) (vs : List Variable) (c : NormalizedCidr)
      (ds : List NormalizedCidr)
      → parse_cidr L v ≡ ok c
      → In s (renderings ds) ↔ Selects s vs
      → In s (renderings (c ∷ ds)) ↔ Selects s (v ∷ vs)
  head_or_rest s v vs c ds good rest = (forth, back)
    where
      forth : In s (renderings (c ∷ ds)) → Selects s (v ∷ vs)
      forth (inl e) = inl (c, good, e)
      forth (inr m) = inr (rest.0 m)

      back : Selects s (v ∷ vs) → In s (renderings (c ∷ ds))
      back (inl (d, good', e)) =
          let same : d ≡ c = cc (good, good') in inl (e ∙ ap (λ x. x.rendered) same)
      back (inr m) = inr (rest.1 m)

  parse_all-Selects :
      (s : String) (vs : List Variable) (cs : List NormalizedCidr)
      → parse_all L vs ≡ ok cs
      → In s (renderings cs) ↔ Selects s vs
  unfolding parse_all
  parse_all-Selects s [] cs h =
      let e : [] ≡ cs = cc h in subst (λ l. In s (renderings l) ↔ ⊥) e (λ m. m, λ m. m)
  parse_all-Selects s (v ∷ vs) cs h =
      let (c, good, h₁) = >>=-eq-ok (parse_cidr L v) _ h in
      let (ds, rest, h₂) = >>=-eq-ok (parse_all L vs) _ h₁ in
      let e : c ∷ ds ≡ cs = cc h₂ in
      subst (λ l. In s (renderings l) ↔ Selects s (v ∷ vs)) e
        (head_or_rest s v vs c ds good (parse_all-Selects s vs ds rest))

  pub extract_cidrs-eq-ok :
      (e : Expression) (p : Value) (out : List NormalizedCidr)
      → extract_cidrs L e p ≡ ok out
      → (vs : List Variable) × (cs : List NormalizedCidr) × (query_values L e p ≡ ok vs)
        × (parse_all L vs ≡ ok cs)
        × (sort (fresh [] cs) ≡ out)
  unfolding extract_cidrs
  extract_cidrs-eq-ok e p out h =
      let (vs, selected, h₁) = >>=-eq-ok (query_values L e p) _ h in
      let h₂ =
        subst (λ r. (r >>= λ cidrs. ok (sort cidrs)) ≡ ok out) (collect_cidrs-eq-fresh L [] [] vs)
          h₁ in
      let (ds, collected, h₃) = >>=-eq-ok (parse_all L vs >>= λ cs. ok (fresh [] cs)) _ h₂ in
      let (cs, parsed, h₄) = >>=-eq-ok (parse_all L vs) _ collected in
      (vs, cs, selected, parsed, cc (h₃, h₄))

  -- The texts of a result are strictly ascending.
  pub extracted-IsAscending :
      (e : Expression) (p : Value) (out : List NormalizedCidr)
      → extract_cidrs L e p ≡ ok out
      → IsAscending out
  extracted-IsAscending e p out h =
      let (vs, cs, _, _, sorted) = extract_cidrs-eq-ok e p out h in
      subst IsAscending sorted (sort-IsAscending (fresh [] cs) (fresh-IsDistinct [] cs))

  -- When `extract_cidrs` succeeds, a text occurs in its result exactly when one of the values that
  -- the query selects parses to a CIDR with that text.
  pub In-extract_cidrs :
      (e : Expression) (p : Value) (out : List NormalizedCidr) (s : String)
      → extract_cidrs L e p ≡ ok out
      → (vs : List Variable) × (query_values L e p ≡ ok vs) × (In s (renderings out) ↔ Selects s vs)
  In-extract_cidrs e p out s h =
      let (vs, cs, selected, parsed, sorted) = extract_cidrs-eq-ok e p out h in
      let (to, from) = In-sort-fresh s cs in
      let (to', from') = parse_all-Selects s vs cs parsed in
      (
        vs,
        selected,
        subst (λ l. In s (renderings l) ↔ Selects s vs) sorted
            (λ m. to' (to m), λ m. from (from' m)),
      )

  parse_all-append_err :
      (before after : List Variable) (bad : Variable) (cs : List NormalizedCidr)
      (e : ExtractionError L)
      → parse_all L before ≡ ok cs
      → parse_cidr L bad ≡ err e
      → parse_all L (before ++ bad ∷ after) ≡ err e
  unfolding parse_all
  parse_all-append_err [] after bad cs e h b = rw b
  parse_all-append_err (v ∷ before) after bad cs e h b =
      let (c, good, h₁) = >>=-eq-ok (parse_cidr L v) _ h in
      let (ds, rest, _) = >>=-eq-ok (parse_all L before) _ h₁ in
      rw (good, parse_all-append_err before after bad ds e rest b)

  -- A value that is no CIDR text makes the extraction fail with that value's error, when the values
  -- in front of it are all right, whatever follows.
  pub extract_cidrs_bad_value :
      (e : Expression) (p : Value) (before after : List Variable) (bad : Variable)
      (cs : List NormalizedCidr) (error : ExtractionError L)
      → query_values L e p ≡ ok (before ++ bad ∷ after)
      → parse_all L before ≡ ok cs
      → parse_cidr L bad ≡ err error
      → extract_cidrs L e p ≡ err error
  unfolding extract_cidrs
  extract_cidrs_bad_value e p before after bad cs error q h b = rw (
    q,
    collect_cidrs-eq-fresh L [] [] (before ++ bad ∷ after),
    parse_all-append_err before after bad cs error h b,
  )
