-- ===== src/Libs.antt =====
-- The crates that the controller calls without effects: url, std's IP parser, regex, cron and
-- chrono, jmespath, serde_json, ipnet, and the metadata helpers of kube. Their types are opaque.
use ipmaze.Base.{ℕ, String, Bool, Option, List, Result, Eq}

pub record Libs : Type 1 where
  -- `url::Url`
  pub Url : Type 0
  pub UrlError : Type 0
  pub url_parse : String → Result Url UrlError
  pub url_scheme : Url → String
  pub url_error_text : UrlError → String
  -- `IpAddr::from_str`, whose error the code drops
  pub IpAddr : Type 0
  pub ip_from_str : String → Option IpAddr
  -- `regex::Regex`; a capture group may be absent
  pub Regex : Type 0
  pub RegexError : Type 0
  pub Captures : Type 0
  pub regex_new : String → Result Regex RegexError
  pub captures : Regex → String → Option Captures
  pub capture_get : Captures → ℕ → Option String
  pub regex_error_text : RegexError → String
  -- `cron::Schedule`; `schedule_after` is `after(&now).next()`
  pub DateTime : Type 0
  pub Schedule : Type 0
  pub ScheduleError : Type 0
  pub schedule_from_str : String → Result Schedule ScheduleError
  pub schedule_after : Schedule → DateTime → Option DateTime
  pub schedule_error_text : ScheduleError → String
  -- chrono; a `std::time::Duration` is its number of nanoseconds
  pub TimeDelta : Type 0
  pub RangeError : Type 0
  pub signed_duration_since : DateTime → DateTime → TimeDelta
  pub to_std : TimeDelta → Result ℕ RangeError
  pub range_error_text : RangeError → String
  pub to_rfc3339 : DateTime → String
  -- serde_json
  pub Value : Type 0
  pub JsonError : Type 0
  pub value_to_string : Value → Result String JsonError
  pub value_from_slice : List ℕ → Result Value JsonError
  -- jmespath
  pub Expression : Type 0
  pub JmespathError : Type 0
  pub Variable : Type 0
  pub jmespath_compile : String → Result Expression JmespathError
  pub variable_from_json : String → Result Variable String
  pub search_expression : Expression → Variable → Result Variable JmespathError
  pub as_array : Variable → Option (List Variable)
  pub as_string : Variable → Option String
  pub jmespath_error_text : JmespathError → String
  -- `ipnet::IpNet`; `is_v4` tells its two variants apart
  pub IpNet : Type 0
  pub ipnet_parse : String → Option IpNet
  pub is_v4 : IpNet → Bool
  pub ipnet_to_string : IpNet → String
  -- `k8s_openapi`'s OwnerReference, and the errors of reqwest
  pub OwnerReference : Type 0
  pub owner_eq : Eq OwnerReference
  pub HttpError : Type 0
