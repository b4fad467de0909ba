-- ===== src/Tests/Extraction.antt =====
-- extract.rs on small payloads.
use ipmaze.Base.{string_eq, string_dec, ◌≡◌, ◌↔◌, refl, List, [], ◌∷◌, ◌++◌, In, ok, err}
use ipmaze.Text.{split}
use ipmaze.Extract.{
  NormalizedCidr, v4, invalid_cidr, query_values, extract_cidrs, collect_cidrs, parse_cidr,
  of_ipnet, sort, insert_sorted, compare_cidr,
}
use ipmaze.Extract.Order.{IsAscending, renderings}
use ipmaze.Extract.Collect.{parse_all}
use ipmaze.Extract.Canonical.{Selects, In-extract_cidrs, extract_cidrs_bad_value}
use ipmaze.Extract.Abstract.{set_of, listing, extract_cidrs-IsAscending}
use ipmaze.Tests.Crates.{test_libs, TestValue, list, TestVariable, text}

abbrev pub ten : NormalizedCidr
ten = record { rendered = "10.0.0.0/8"; family = v4 }

abbrev pub net : NormalizedCidr
net = record { rendered = "192.0.2.0/24"; family = v4 }

abbrev payload : TestValue
payload = list ("192.0.2.0/24" ∷ "10.0.0.0/8" ∷ "192.0.2.0/24" ∷ [])

extracts : extract_cidrs test_libs "@" payload ≡ ok (ten ∷ net ∷ [])
unfolding extract_cidrs query_values collect_cidrs parse_cidr of_ipnet sort insert_sorted
    compare_cidr string_eq string_dec split
extracts = refl

extract_cidrs-IsAscending_example :
    IsAscending (ten ∷ net ∷ [])
    × (vs : List TestVariable) × (cs : List NormalizedCidr) × (query_values test_libs "@" payload
        ≡ ok vs)
    × (parse_all test_libs vs ≡ ok cs)
    × (set_of (ten ∷ net ∷ []) ≡ set_of cs)
    × (renderings (ten ∷ net ∷ []) ≡ listing (set_of cs))
extract_cidrs-IsAscending_example =
    extract_cidrs-IsAscending test_libs "@" payload (ten ∷ net ∷ []) extracts

In-extract_cidrs_example :
    (vs : List TestVariable) × (query_values test_libs "@" payload ≡ ok vs)
    × (In "10.0.0.0/8" (renderings (ten ∷ net ∷ [])) ↔ Selects test_libs "10.0.0.0/8" vs)
In-extract_cidrs_example =
    In-extract_cidrs test_libs "@" payload (ten ∷ net ∷ []) "10.0.0.0/8" extracts

abbrev a : TestVariable
a = text "192.0.2.0/24"

abbrev b : TestVariable
b = text "10.0.0.0/8"

abbrev broken : TestValue
broken = list ("10.0.0.0/8" ∷ "elsewhere" ∷ "192.0.2.0/24" ∷ [])

selects_broken : query_values test_libs "@" broken ≡ ok ((b ∷ []) ++ text "elsewhere" ∷ a ∷ [])
unfolding query_values string_eq string_dec split
selects_broken = refl

parses_front : parse_all test_libs (b ∷ []) ≡ ok (ten ∷ [])
unfolding parse_all parse_cidr of_ipnet split
parses_front = refl

refuses : parse_cidr test_libs (text "elsewhere") ≡ err (invalid_cidr "elsewhere")
unfolding parse_cidr split
refuses = refl

extract_cidrs_bad_value_example :
    extract_cidrs test_libs "@" broken ≡ err (invalid_cidr "elsewhere")
extract_cidrs_bad_value_example =
    extract_cidrs_bad_value test_libs "@" broken (b ∷ []) (a ∷ []) (text "elsewhere") (ten ∷ [])
      (invalid_cidr "elsewhere") selects_broken parses_front refuses
