-- ===== src/Tests/Unit/Source.antt =====
-- source.rs, `mod tests`. The mock server is the test world's page, at an address of its own.
use ipmaze.Base.{
  String, Bool, true, false, ◌≡◌, refl, ◌&&◌, ◌==◌, none, some, [], ◌∷◌, Result, string_eq,
  string_dec,
}
use ipmaze.Text.{trim, trim_start, trim_end, is_whitespace, split, last_char}
use ipmaze.Source.{
  RemoteAddress, hostname, ip, SourceAddressError, unsupported_scheme, FetchError, invalid_json,
  pointer_extraction_no_match, pointer_extraction_empty_capture, ResolvedSource, follow_pointer,
  captured_address, normalize_source_address, of_trimmed, of_bare, of_url, with_url,
}
use ipmaze.Source.Hostname.{is_valid_hostname, is_valid_hostname_label, is_ascii_alphanumeric}
use ipmaze.Source.Resolve.{resolve_final_source, resolve_pointer, fetch_text, parse_json_bytes}
use ipmaze.Tests.Crates.{test_libs}
use ipmaze.Tests.Outside.{test_world, TestState}
use ipmaze.Tests.Unit.{unwrap_and, unwrap_err_and}

-- `matches!`
abbrev is_hostname : RemoteAddress test_libs → Bool
is_hostname (hostname _) = true
is_hostname _ = false

abbrev is_ip : RemoteAddress test_libs → Bool
is_ip (ip _) = true
is_ip _ = false

abbrev is_unsupported_scheme : SourceAddressError test_libs → Bool
is_unsupported_scheme (unsupported_scheme _) = true
is_unsupported_scheme _ = false

abbrev is_invalid_json : FetchError test_libs → Bool
is_invalid_json (invalid_json _) = true
is_invalid_json _ = false

abbrev is_no_match : FetchError test_libs → Bool
is_no_match pointer_extraction_no_match = true
is_no_match _ = false

abbrev is_empty_capture : FetchError test_libs → Bool
is_empty_capture pointer_extraction_empty_capture = true
is_empty_capture _ = false

abbrev bare_dns_names_default_to_https : Bool
bare_dns_names_default_to_https =
    unwrap_and (normalize_source_address test_libs "example.invalid") (λ normalized.
      normalized.request_url.text == "https://example.invalid/"
      && is_hostname normalized.remote_address)

abbrev bare_ip_addresses_default_to_http : Bool
bare_ip_addresses_default_to_http =
    unwrap_and (normalize_source_address test_libs "203.0.113.10") (λ normalized.
      normalized.request_url.text == "http://203.0.113.10/" && is_ip normalized.remote_address)

abbrev explicit_urls_are_preserved : Bool
explicit_urls_are_preserved =
    unwrap_and (normalize_source_address test_libs "https://example.invalid/prefixes.json")
      (λ normalized. normalized.request_url.text == "https://example.invalid/prefixes.json")

abbrev invalid_addresses_are_rejected : Bool
invalid_addresses_are_rejected =
    unwrap_err_and (normalize_source_address test_libs "ftp://example.invalid")
      is_unsupported_scheme

-- `br#"not-json"#`
abbrev invalid_json_is_rejected : Bool
invalid_json_is_rejected =
    unwrap_err_and
      (parse_json_bytes test_libs test_world
        (b'n' ∷ b'o' ∷ b't' ∷ b'-' ∷ b'j' ∷ b's' ∷ b'o' ∷ b'n' ∷ []))
      is_invalid_json

-- The server answers each request with the page.
abbrev serving : String → TestState
serving page = record {
  page = some page;
  policies = [];
  source = none;
  clock = 0;
  requests = [];
  events = [];
}

-- The pointer's address is read, and resolved with the expression that is compiled.
abbrev resolving :
    String → String → (Result (ResolvedSource test_libs) (FetchError test_libs) → Bool) → Bool
resolving page pattern check =
    unwrap_and (normalize_source_address test_libs "http://127.0.0.1:4000/pointer.txt")
      (λ base_address. unwrap_and (test_libs.regex_new pattern) (λ regex.
        check
          (resolve_final_source test_libs test_world base_address (some regex) (serving page)).0))

abbrev pointer_resolution_uses_first_capture_group_and_normalizes_dns : Bool
pointer_resolution_uses_first_capture_group_and_normalizes_dns =
    resolving "window.endpoint='example.invalid'; fallback='ignored.invalid';" "endpoint='([^']+)'"
      (λ r. unwrap_and r (λ resolved.
        resolved.pointer_used
        && (resolved.final_address.original == "example.invalid"
            && resolved.final_address.request_url.text == "https://example.invalid/")))

abbrev pointer_resolution_rejects_missing_match : Bool
pointer_resolution_rejects_missing_match =
    resolving "no endpoint here" "endpoint='([^']+)'" (λ r. unwrap_err_and r is_no_match)

abbrev pointer_resolution_rejects_empty_capture_group : Bool
pointer_resolution_rejects_empty_capture_group =
    resolving "endpoint=''" "endpoint='([^']*)'" (λ r. unwrap_err_and r is_empty_capture)

pub source_tests_pass :
    bare_dns_names_default_to_https && bare_ip_addresses_default_to_http
      && explicit_urls_are_preserved && invalid_addresses_are_rejected && invalid_json_is_rejected
      && pointer_resolution_uses_first_capture_group_and_normalizes_dns
      && pointer_resolution_rejects_missing_match && pointer_resolution_rejects_empty_capture_group
    ≡ true
unfolding normalize_source_address of_trimmed of_bare of_url with_url resolve_final_source
    resolve_pointer fetch_text parse_json_bytes follow_pointer captured_address trim trim_start
    trim_end is_whitespace split last_char is_valid_hostname is_valid_hostname_label
    is_ascii_alphanumeric string_eq string_dec
source_tests_pass = refl
