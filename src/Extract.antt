-- ===== src/Extract.antt =====
-- extract.rs
pub mod Order
pub mod Collect
pub mod Canonical
pub mod Abstract
use Prim.Native.Nat.{Ordering}
use Prim.Native.String.{compare, then as then_by}
use ipmaze.Base.{
  String, Bool, true, false, Option, none, some, List, [], ◌∷◌, ◌++◌, Result, ok, err, ◌>>=◌,
  map_err, ok_or, any, not, ◌==◌, string_eq, if◌then◌else◌,
}
use ipmaze.Libs.{Libs}

pub data IpFamily : Type 0 where
  v4 v6 : IpFamily

pub record NormalizedCidr : Type 0 where
  pub rendered : String
  pub family : IpFamily

-- `QueryError::Compile`
pub data QueryError (L : Libs) : Type 0 where
  compile : L.JmespathError → QueryError L

pub data ExtractionError (L : Libs) : Type 0 where
  serialize_payload : L.JsonError → ExtractionError L
  variable_from_json : String → ExtractionError L
  evaluate : L.JmespathError → ExtractionError L
  result_not_array : ExtractionError L
  result_element_not_string : ExtractionError L
  invalid_cidr : String → ExtractionError L

-- The derived `Ord`: by the fields in their order, by the variants in theirs.
abbrev pub compare_family : IpFamily → IpFamily → Ordering
compare_family v4 v4 = Ordering.eq
compare_family v4 v6 = Ordering.lt
compare_family v6 v4 = Ordering.gt
compare_family v6 v6 = Ordering.eq

unfoldable pub compare_cidr : NormalizedCidr → NormalizedCidr → Ordering
compare_cidr a b = then_by (compare a.rendered b.rendered) (compare_family a.family b.family)

abbrev pub le_cidr : NormalizedCidr → NormalizedCidr → Bool
le_cidr a b = elim (compare_cidr a b) [ Ordering.gt ↦ false | _ ↦ true ]

-- `sort`, which is stable.
unfoldable pub insert_sorted : NormalizedCidr → List NormalizedCidr → List NormalizedCidr
insert_sorted x [] = x ∷ []
insert_sorted x (y ∷ ys) = if le_cidr x y then x ∷ y ∷ ys else y ∷ insert_sorted x ys

unfoldable pub sort : List NormalizedCidr → List NormalizedCidr
sort [] = []
sort (x ∷ xs) = insert_sorted x (sort xs)

abbrev pub contains : String → List String → Bool
contains s = any (λ t. s == t)

module _ (L : Libs) where
  open L use {
    Value, Expression, Variable, IpNet, jmespath_compile, value_to_string, search_expression,
    as_array, as_string, ipnet_parse, is_v4, ipnet_to_string,
  }

  unfoldable pub compile_query : String → Result Expression (QueryError L)
  compile_query expr = map_err compile (jmespath_compile expr)

  -- `From<IpNet>`
  unfoldable pub of_ipnet : IpNet → NormalizedCidr
  of_ipnet net = record { rendered = ipnet_to_string net; family = if is_v4 net then v4 else v6 }

  -- The body of the loop before `seen.insert`.
  unfoldable pub parse_cidr : Variable → Result NormalizedCidr (ExtractionError L)
  parse_cidr value = do
    cidr ← ok_or (as_string value) result_element_not_string
    parsed ← ok_or (ipnet_parse cidr) (invalid_cidr cidr)
    ok (of_ipnet parsed)

  -- The loop over the values, with what it has seen and collected.
  unfoldable pub collect_cidrs :
      List String
      → List NormalizedCidr
      → List Variable
      → Result (List NormalizedCidr) (ExtractionError L)
  collect_cidrs seen cidrs [] = ok cidrs
  collect_cidrs seen cidrs (value ∷ values) = do
    c ← parse_cidr value
    let fresh = not (contains c.rendered seen)
    collect_cidrs (if fresh then c.rendered ∷ seen else seen)
        (if fresh then cidrs ++ (c ∷ []) else cidrs) values

  -- What the query selects in the payload, as `extract_cidrs` begins.
  unfoldable pub query_values : Expression → Value → Result (List Variable) (ExtractionError L)
  query_values expression payload = do
    payload_json ← map_err serialize_payload (value_to_string payload)
    variable ← map_err variable_from_json (L.variable_from_json payload_json)
    result ← map_err evaluate (search_expression expression variable)
    ok_or (as_array result) result_not_array

  unfoldable pub extract_cidrs :
      Expression → Value → Result (List NormalizedCidr) (ExtractionError L)
  extract_cidrs expression payload = do
    values ← query_values expression payload
    cidrs ← collect_cidrs [] [] values
    ok (sort cidrs)
