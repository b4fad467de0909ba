-- ===== src/Tests/Addresses.antt =====
-- source.rs on a few addresses, texts of hosts, and pages.
use text.Mathlib.TextLemmas.{append_assoc}
use ipmaze.Base.{
  String, string_eq, string_dec, true, ◌≡◌, ◌≢◌, refl, sym, ap, ◌∙◌, Option, none, some, [], ◌∷◌,
  ok, err, ◌<>◌,
}
use ipmaze.Text.{trim, trim_start, trim_end, is_whitespace, split, last_char, char_is}
use ipmaze.Text.Laws.{split-append}
use ipmaze.Source.{
  NormalizedRemoteAddress, hostname, invalid_address, normalize_source_address, of_trimmed, of_bare,
  captured_address, follow_pointer, with_url, ResolvedSource,
}
use ipmaze.Source.Hostname.{is_valid_hostname, is_valid_hostname_label, is_ascii_alphanumeric}
use ipmaze.Source.Hostname.Grammar.{IsHostname, is_valid_hostname_iff}
use ipmaze.Source.Normalize.Accepted.{Reading, normalize_source_address_iff}
use ipmaze.Source.Normalize.{
  KeepsScheme, normalize_source_address-IsWeb, IsWeb, normalize_source_address_path,
}
use ipmaze.Source.Resolve.{resolve_final_source, resolve_pointer, fetch_text}
use ipmaze.Source.Resolve.Laws.{Origin, resolve_final_source-Origin}
use ipmaze.Tests.Crates.{test_libs, TestUrl, colon, url_of, url_of_scheme}
use ipmaze.Tests.Outside.{test_world, TestState}

-- The texts and what is read from them: `example.com` with blanks round it.
accepts : is_valid_hostname "example.com" ≡ true
unfolding is_valid_hostname is_valid_hostname_label is_ascii_alphanumeric split last_char
accepts = refl

is_valid_hostname_iff_example : IsHostname "example.com"
is_valid_hostname_iff_example = (is_valid_hostname_iff "example.com").0 accepts

colon_http : (t : String) → colon ("http://" <> t) ≡ "http" ∷ colon ("//" <> t)
colon_http t =
    ap colon (append_assoc "http:" "//" t ∙ append_assoc "http" ":" ("//" <> t))
    ∙ split-append (char_is b':') ":" "http" ("//" <> t) (refl, (refl, (refl, (refl, tt)))) refl

colon_https : (t : String) → colon ("https://" <> t) ≡ "https" ∷ colon ("//" <> t)
colon_https t =
    ap colon (append_assoc "https:" "//" t ∙ append_assoc "https" ":" ("//" <> t))
    ∙ split-append (char_is b':') ":" "https" ("//" <> t) (refl, (refl, (refl, (refl, (refl, tt)))))
        refl

test_libs-KeepsScheme : KeepsScheme test_libs
test_libs-KeepsScheme = record {
  http = λ t u h.
      url_of_scheme "http" ("http://" <> t) (colon ("//" <> t)) u
        (sym (ap (λ c. url_of c ("http://" <> t)) (colon_http t)) ∙ h);
  https = λ t u h.
      url_of_scheme "https" ("https://" <> t) (colon ("//" <> t)) u
        (sym (ap (λ c. url_of c ("https://" <> t)) (colon_https t)) ∙ h);
}

abbrev web_url : TestUrl
web_url = record { scheme = "https"; text = "https://example.com/" }

abbrev pub web_host : NormalizedRemoteAddress test_libs
web_host = record {
  original = "example.com";
  remote_address = hostname "example.com";
  request_url = web_url;
}

reads_host : normalize_source_address test_libs " example.com" ≡ ok web_host
unfolding normalize_source_address of_trimmed of_bare with_url string_eq string_dec trim trim_start
    trim_end is_whitespace split last_char is_valid_hostname is_valid_hostname_label
    is_ascii_alphanumeric
reads_host = refl

normalize_source_address-IsWeb_example :
    ◌≡◌ {A = String} "example.com" "example.com" × IsWeb test_libs web_url
unfolding trim trim_start trim_end is_whitespace
normalize_source_address-IsWeb_example =
    normalize_source_address-IsWeb test_libs test_libs-KeepsScheme " example.com" web_host
      reads_host

normalize_source_address_iff_example :
    (trim " example.com" ≢ "") × Reading test_libs "example.com" web_host
unfolding trim trim_start trim_end is_whitespace
normalize_source_address_iff_example =
    (normalize_source_address_iff test_libs " example.com" web_host).0 reads_host

normalize_source_address_path_example :
    normalize_source_address test_libs " cdn.example.com/list.json"
    ≡ err (invalid_address "cdn.example.com/list.json")
unfolding trim trim_start trim_end is_whitespace split string_eq string_dec
normalize_source_address_path_example =
    normalize_source_address_path test_libs " cdn.example.com/list.json" "cdn.example.com"
      "list.json" {e = "relative URL without a base"} refl non_empty refl refl
  where
    non_empty : trim " cdn.example.com/list.json" ≢ ""
    non_empty = cc

-- Resolution, with a page that names the list's host and with one that is missing.
abbrev state_of : Option String → TestState
state_of page = record {
  page = page;
  policies = [];
  source = none;
  clock = 0;
  requests = [];
  events = [];
}

abbrev asked : TestState
asked = record (state_of (some " example.com ")) { requests = "https://example.com/" ∷ [] }

abbrev resolved : ResolvedSource test_libs
resolved = record { base_address = web_host; final_address = web_host; pointer_used = true }

resolves :
    resolve_final_source test_libs test_world web_host
      (some "whole")
      (state_of (some " example.com "))
    ≡ (ok resolved, asked)
unfolding resolve_final_source resolve_pointer fetch_text follow_pointer captured_address
    normalize_source_address of_trimmed of_bare with_url string_eq string_dec trim trim_start
    trim_end is_whitespace split last_char is_valid_hostname is_valid_hostname_label
    is_ascii_alphanumeric
resolves = refl

resolve_final_source-Origin_example :
    (web_host ≡ web_host)
    × Origin test_libs test_world web_host
        (some "whole")
        resolved
        (state_of (some " example.com "))
        asked
resolve_final_source-Origin_example =
    resolve_final_source-Origin test_libs test_world web_host (some "whole")
      (state_of (some " example.com ")) asked resolved resolves
