-- ===== src/NetPol/Selector.antt =====
-- netpol.rs: `render_selector`.
pub mod RoundTrip
use Prim.Native.Nat.{Ordering}
use Prim.Native.String.{compare}
use ipmaze.Base.{
  String, Bool, true, false, ◌&&◌, ◌||◌, Option, none, some, List, [], ◌∷◌, ◌++◌, map, is_empty,
  any, Result, ok, err, ◌>>=◌, ok_or, map_option, is_some, is_some_and, is_none_or, and_then, Eq,
  ◌==◌, string_eq, if◌then◌else◌,
}
use ipmaze.Base.BTree.{set_insert, set_extend, map_insert, map_get}
use ipmaze.Api.{
  Direction, ingress, egress, LabelSelectorOperator, in_values, not_in, exists, does_not_exist,
  LabelSelectorRequirement, LabelSelector, RuleSpec, CidrPolicy, StringMap, ObjectMeta,
  managed_network_policy_name,
}
use ipmaze.Extract.{NormalizedCidr}
use ipmaze.Networking.{
  KubeRequirement, KubeLabelSelector, IpBlock, NetworkPolicyPeer, NetworkPolicyIngressRule,
  NetworkPolicyEgressRule, NetworkPolicySpec, NetworkPolicy,
}
use ipmaze.Libs.{Libs}
use ipmaze.World.{World}

pub data RenderError : Type 0 where
  missing_namespace : RenderError
  missing_selector_values : String → String → RenderError
  unexpected_selector_values : String → String → RenderError

-- The arms of `In` and `NotIn`, then those of `Exists` and `DoesNotExist`.
unfoldable pub with_values : String → LabelSelectorRequirement → Result String RenderError
with_values operator r =
    if is_none_or r.values is_empty
    then err (missing_selector_values r.key operator)
    else ok operator

unfoldable pub without_values : String → LabelSelectorRequirement → Result String RenderError
without_values operator r =
    if is_some r.values then err (unexpected_selector_values r.key operator) else ok operator

unfoldable pub render_operator :
    LabelSelectorOperator → LabelSelectorRequirement → Result String RenderError
render_operator in_values r = with_values "In" r
render_operator not_in r = with_values "NotIn" r
render_operator exists r = without_values "Exists" r
render_operator does_not_exist r = without_values "DoesNotExist" r

unfoldable pub render_requirement : LabelSelectorRequirement → Result KubeRequirement RenderError
render_requirement r = do
  operator ← render_operator r.operator r
  ok (record { key = r.key; operator = operator; values = r.values })

-- `collect::<Result<Vec<_>, _>>()`
unfoldable pub render_requirements :
    List LabelSelectorRequirement → Result (List KubeRequirement) RenderError
render_requirements [] = ok []
render_requirements (r ∷ rs) = do q ← render_requirement r; qs ← render_requirements rs; ok (q ∷ qs)

-- `transpose`
abbrev pub transpose {ℓ} : {A E : Type ℓ} → Option (Result A E) → Result (Option A) E
transpose none = ok none
transpose (some (ok a)) = ok (some a)
transpose (some (err e)) = err e

unfoldable pub render_selector : LabelSelector → Result KubeLabelSelector RenderError
render_selector selector = do
  match_expressions ← transpose (map_option render_requirements selector.match_expressions)
  ok (record { match_labels = selector.match_labels; match_expressions = match_expressions })

unfoldable pub render_subject_selector : LabelSelector → Result KubeLabelSelector RenderError
render_subject_selector selector = render_selector selector
