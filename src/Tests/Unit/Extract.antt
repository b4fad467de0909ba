-- ===== src/Tests/Unit/Extract.antt =====
-- extract.rs, `mod tests`, but for those of longer queries. The payload of a test is the value that its
-- query selects.
use ipmaze.Base.{
  String, Bool, true, false, ◌≡◌, refl, ◌&&◌, ◌==◌, List, [], ◌∷◌, map, is_empty, Result, string_eq,
  string_dec, list_eq,
}
use ipmaze.Text.{split, decimal, decimal_onto}
use ipmaze.Extract.{
  NormalizedCidr, ExtractionError, result_not_array, result_element_not_string, invalid_cidr,
  compile_query, query_values, extract_cidrs, collect_cidrs, parse_cidr, of_ipnet, sort,
  insert_sorted, compare_cidr,
}
use ipmaze.Tests.Crates.{test_libs, TestValue, list, string, numbers}
use ipmaze.Tests.Unit.{unwrap_and, unwrap_err_and}

-- The query is compiled, and run on the payload.
abbrev extracting :
    TestValue → (Result (List NormalizedCidr) (ExtractionError test_libs) → Bool) → Bool
extracting payload check =
    unwrap_and (compile_query test_libs "prefixes")
      (λ expression. check (extract_cidrs test_libs expression payload))

abbrev is_invalid_cidr : String → ExtractionError test_libs → Bool
is_invalid_cidr expected (invalid_cidr value) = value == expected
is_invalid_cidr expected _ = false

abbrev is_result_not_array : ExtractionError test_libs → Bool
is_result_not_array result_not_array = true
is_result_not_array _ = false

abbrev is_result_element_not_string : ExtractionError test_libs → Bool
is_result_element_not_string result_element_not_string = true
is_result_element_not_string _ = false

abbrev deduplicates_and_sorts_valid_cidrs : Bool
deduplicates_and_sorts_valid_cidrs =
    extracting (list ("2001:db8::/32" ∷ "10.0.0.0/24" ∷ "10.0.0.0/24" ∷ [])) (λ r.
      unwrap_and r
        (λ actual. map (λ item. item.rendered) actual == "10.0.0.0/24" ∷ "2001:db8::/32" ∷ []))

abbrev empty_array_is_valid : Bool
empty_array_is_valid = extracting (list []) (λ r. unwrap_and r (λ actual. is_empty actual))

abbrev non_array_results_fail : Bool
non_array_results_fail =
    extracting (string "10.0.0.0/24") (λ r. unwrap_err_and r is_result_not_array)

abbrev non_string_elements_fail : Bool
non_string_elements_fail =
    extracting (numbers (42 ∷ [])) (λ r. unwrap_err_and r is_result_element_not_string)

abbrev invalid_cidrs_fail : Bool
invalid_cidrs_fail =
    extracting (list ("10.0.0.1" ∷ [])) (λ r. unwrap_err_and r (is_invalid_cidr "10.0.0.1"))

pub extract_tests_pass :
    deduplicates_and_sorts_valid_cidrs && empty_array_is_valid && non_array_results_fail
      && non_string_elements_fail && invalid_cidrs_fail
    ≡ true
unfolding compile_query extract_cidrs query_values collect_cidrs parse_cidr of_ipnet sort
    insert_sorted compare_cidr split string_eq string_dec list_eq decimal decimal_onto
extract_tests_pass = refl
