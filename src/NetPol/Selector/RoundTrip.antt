-- ===== src/NetPol/Selector/RoundTrip.antt =====
-- Rendering a selector loses nothing, and succeeds on every selector that validation accepts.
use ipmaze.Base.{
  String, ◌≡◌, refl, sym, ap, Option, none, some, List, [], ◌∷◌, arith, All, Result, ok, ◌>>=◌,
  >>=-eq-ok, map_option, ◌==◌, string_eq, string_dec, if◌then◌else◌, and_then,
}
use ipmaze.Api.{
  LabelSelectorOperator, in_values, not_in, exists, does_not_exist, LabelSelectorRequirement,
  LabelSelector,
}
use ipmaze.Networking.{KubeRequirement, KubeLabelSelector}
use ipmaze.Validation.Rules.{
  FitsOperator, IsValidRequirement, IsValidSelector, AreValidRequirements,
}
use ipmaze.NetPol.Selector.{
  RenderError, with_values, without_values, render_operator, render_requirement,
  render_requirements, transpose, render_selector,
}

-- The operator that Kubernetes reads from its text.
unfoldable pub read_operator : String → Option LabelSelectorOperator
read_operator s =
    if s == "In"
    then some in_values
    else if s == "NotIn"
    then some not_in
    else if s == "Exists"
    then some exists
    else if s == "DoesNotExist"
    then some does_not_exist
    else none

unfoldable pub read_requirement : KubeRequirement → Option LabelSelectorRequirement
read_requirement q =
    map_option (λ o. record { key = q.key; operator = o; values = q.values })
      (read_operator q.operator)

unfoldable pub read_requirements : List KubeRequirement → Option (List LabelSelectorRequirement)
read_requirements [] = some []
read_requirements (q ∷ qs) =
    and_then (read_requirement q) (λ r. map_option (λ rs. r ∷ rs) (read_requirements qs))

unfoldable pub read_expressions :
    Option (List KubeRequirement) → Option (Option (List LabelSelectorRequirement))
read_expressions none = some none
read_expressions (some qs) = map_option some (read_requirements qs)

-- The selector that a rendered one stands for.
unfoldable pub read_selector : KubeLabelSelector → Option LabelSelector
read_selector k =
    map_option (λ m. record { match_labels = k.match_labels; match_expressions = m })
      (read_expressions k.match_expressions)

read-render_operator :
    (o : LabelSelectorOperator) (r : LabelSelectorRequirement) (text : String)
    → render_operator o r ≡ ok text
    → read_operator text ≡ some o
unfolding render_operator with_values without_values read_operator string_eq string_dec
read-render_operator in_values r text h =
    let e : "In" ≡ text = ground arith in ap read_operator (sym e)
read-render_operator not_in r text h =
    let e : "NotIn" ≡ text = ground arith in ap read_operator (sym e)
read-render_operator exists r text h =
    let e : "Exists" ≡ text = ground arith in ap read_operator (sym e)
read-render_operator does_not_exist r text h =
    let e : "DoesNotExist" ≡ text = ground arith in ap read_operator (sym e)

read-render_requirement :
    (r : LabelSelectorRequirement) (q : KubeRequirement)
    → render_requirement r ≡ ok q
    → read_requirement q ≡ some r
unfolding render_requirement read_requirement
read-render_requirement r q h =
    let (text, rendered, h₁) = >>=-eq-ok (render_operator r.operator r) _ h in
    ground (arith, read-render_operator r.operator r text rendered)

read-render_requirements :
    (rs : List LabelSelectorRequirement) (qs : List KubeRequirement)
    → render_requirements rs ≡ ok qs
    → read_requirements qs ≡ some rs
unfolding render_requirements read_requirements
read-render_requirements [] qs h = let e : [] ≡ qs = cc h in ap read_requirements (sym e)
read-render_requirements (r ∷ rs) qs h =
    let (q, first, h₁) = >>=-eq-ok (render_requirement r) _ h in
    let (rest, others, h₂) = >>=-eq-ok (render_requirements rs) _ h₁ in
    ground (arith, read-render_requirement r q first, read-render_requirements rs rest others)

read-render_expressions :
    (m : Option (List LabelSelectorRequirement)) (k : Option (List KubeRequirement))
    → transpose (map_option render_requirements m) ≡ ok k
    → read_expressions k ≡ some m
unfolding read_expressions
read-render_expressions none k h = ground arith
read-render_expressions (some rs) none h = ground arith
read-render_expressions (some rs) (some qs) h = ground (arith, read-render_requirements rs qs)

-- A rendered selector stands for exactly the selector that it was rendered from.
pub read_selector-render_selector :
    (s : LabelSelector) (k : KubeLabelSelector)
    → render_selector s ≡ ok k
    → read_selector k ≡ some s
unfolding render_selector read_selector
read_selector-render_selector s k h =
    let (m, rendered, h₁) =
      >>=-eq-ok (transpose (map_option render_requirements s.match_expressions)) _ h in
    ground (arith, read-render_expressions s.match_expressions m rendered)

render_operator_total :
    (o : LabelSelectorOperator) (r : LabelSelectorRequirement)
    → FitsOperator o r.values
    → (text : String) × (render_operator o r ≡ ok text)
unfolding render_operator with_values without_values
render_operator_total in_values r h = ("In", ground arith)
render_operator_total not_in r h = ("NotIn", ground arith)
render_operator_total exists r h = ("Exists", ground arith)
render_operator_total does_not_exist r h = ("DoesNotExist", ground arith)

render_requirements_total :
    (rs : List LabelSelectorRequirement)
    → All IsValidRequirement rs
    → (qs : List KubeRequirement) × (render_requirements rs ≡ ok qs)
unfolding render_requirements render_requirement
render_requirements_total [] h = ([], refl)
render_requirements_total (r ∷ rs) h =
    let (text, rendered) = render_operator_total r.operator r h.0.1 in
    let (qs, others) = render_requirements_total rs h.1 in
    (record { key = r.key; operator = text; values = r.values } ∷ qs, rw (rendered, others))

-- Every selector that validation accepts is rendered.
pub render_selector_total :
    (s : LabelSelector) → IsValidSelector s → (k : KubeLabelSelector) × (render_selector s ≡ ok k)
unfolding render_selector
render_selector_total s h = go s.match_expressions h
  where
    go :
        (m : Option (List LabelSelectorRequirement))
        → AreValidRequirements m
        → (k : KubeLabelSelector) × (◌≡◌ {A = Result KubeLabelSelector RenderError}
            (transpose (map_option render_requirements m) >>= λ e.
              ok (record { match_labels = s.match_labels; match_expressions = e }))
            (ok k))
    go none v = (record { match_labels = s.match_labels; match_expressions = none }, refl)
    go (some rs) v =
        let (qs, rendered) = render_requirements_total rs v in
        (record { match_labels = s.match_labels; match_expressions = some qs }, rw rendered)
