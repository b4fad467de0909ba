-- ===== src/Source.antt =====
-- source.rs without its requests: how an address is read and turned into a URL.
pub mod Hostname
pub mod Normalize
pub mod Resolve
use ipmaze.Base.{
  true, not, ◌>>=◌, ok_or, map_err, map_option, keep_if, String, Bool, Option, none, some, Result,
  ok, err, ◌<>◌, ◌==◌, string_eq, ◌||◌, if◌then◌else◌, map_err,
}
use ipmaze.Libs.{Libs}
use ipmaze.Text.{trim, is_blank}
use Hostname.{is_valid_hostname}

pub data RemoteAddress (L : Libs) : Type 0 where
  url : L.Url → RemoteAddress L
  hostname : String → RemoteAddress L
  ip : L.IpAddr → RemoteAddress L

pub record NormalizedRemoteAddress (L : Libs) : Type 0 where
  pub original : String
  pub remote_address : RemoteAddress L
  pub request_url : L.Url

pub record ResolvedSource (L : Libs) : Type 0 where
  pub base_address : NormalizedRemoteAddress L
  pub final_address : NormalizedRemoteAddress L
  pub pointer_used : Bool

pub data SourceAddressError (L : Libs) : Type 0 where
  empty : SourceAddressError L
  unsupported_scheme : String → SourceAddressError L
  invalid_address : String → SourceAddressError L
  invalid_url : L.UrlError → SourceAddressError L

pub data FetchError (L : Libs) : Type 0 where
  pointer_retrieval : L.HttpError → FetchError L
  pointer_extraction_no_match : FetchError L
  pointer_extraction_empty_capture : FetchError L
  pointer_resolved_address : SourceAddressError L → FetchError L
  final_retrieval : L.HttpError → FetchError L
  invalid_json : L.JsonError → FetchError L

module _ (L : Libs) where
  open L use {Regex, Captures, captures, capture_get, Url, url_parse, url_scheme, ip_from_str}

  -- The address with the URL of its synthesized form, `Url::parse(&format!(...))?`.
  unfoldable pub with_url :
      String → RemoteAddress L → String → Result (NormalizedRemoteAddress L) (SourceAddressError L)
  with_url trimmed address text = elim (url_parse text) [
    | ok u ↦ ok (record { original = trimmed; remote_address = address; request_url = u })
    | err e ↦ err (invalid_url e)
  ]

  -- The `match url.scheme()` on an address that is a URL.
  unfoldable pub of_url : String → Url → Result (NormalizedRemoteAddress L) (SourceAddressError L)
  of_url trimmed u =
      if url_scheme u == "http" || url_scheme u == "https"
      then ok (record { original = trimmed; remote_address = url u; request_url = u })
      else err (unsupported_scheme (url_scheme u))

  -- What follows once `Url::parse` has refused the address.
  unfoldable pub of_bare : String → Result (NormalizedRemoteAddress L) (SourceAddressError L)
  of_bare trimmed = elim (ip_from_str trimmed) [
    | some a ↦ with_url trimmed (ip a) ("http://" <> (trimmed <> "/"))
    | none ↦
        if is_valid_hostname trimmed
        then with_url trimmed (hostname trimmed) ("https://" <> (trimmed <> "/"))
        else err (invalid_address trimmed)
  ]

  unfoldable pub of_trimmed : String → Result (NormalizedRemoteAddress L) (SourceAddressError L)
  of_trimmed trimmed =
      if is_blank trimmed
      then err empty
      else elim (url_parse trimmed) [ ok u ↦ of_url trimmed u | err _ ↦ of_bare trimmed ]

  unfoldable pub normalize_source_address :
      String → Result (NormalizedRemoteAddress L) (SourceAddressError L)
  normalize_source_address address = of_trimmed (trim address)

  -- The text of the first capture group, trimmed; an empty one counts as absent.
  unfoldable pub captured_address : Captures → Option String
  captured_address groups = keep_if (map_option trim (capture_get groups 1)) (λ c. not (is_blank c))

  -- `resolve_final_source` once the pointer's body is there.
  unfoldable pub follow_pointer :
      NormalizedRemoteAddress L → Regex → String → Result (ResolvedSource L) (FetchError L)
  follow_pointer base regex body = do
    groups ← ok_or (captures regex body) pointer_extraction_no_match
    resolved ← ok_or (captured_address groups) pointer_extraction_empty_capture
    final ← map_err pointer_resolved_address (normalize_source_address resolved)
    ok (record { base_address = base; final_address = final; pointer_used = true })
