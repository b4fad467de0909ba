-- ===== src/Tests/Crates.antt =====
-- Crates for the tests: small functions in their place. A URL is a text with its scheme, which is
-- what stands before the first colon. A JSON value is a list of texts or of numbers, or one text;
-- printed, a list has its items parted by commas, a number has # before it, and a text a quote.
use ipmaze.Base.{
  suc, ◌+◌, ◌-◌, ◌*◌, ◌=ℕ◌, ◌&&◌, ◌||◌, ℕ, String, Bool, true, false, not, ◌≡◌, Option, none, some,
  List, [], ◌∷◌, Result, ok, err, string_eq, ◌==◌, ◌<>◌, map, if◌then◌else◌,
}
use Prim.Native.Nat.{◌/◌}
use ipmaze.Libs.{Libs}
use ipmaze.Text.{char_is, is_blank, split, join, decimal}

pub record TestUrl : Type 0 where
  pub scheme : String
  pub text : String

abbrev pub colon : String → List String
colon = split (char_is b':')

abbrev pub url_of : List String → String → Result TestUrl String
url_of [] text = err "relative URL without a base"
url_of (a ∷ []) text = err "relative URL without a base"
url_of (a ∷ b ∷ ps) text = ok (record { scheme = a; text = text })

abbrev parse_url : String → Result TestUrl String
parse_url text = url_of (colon text) text

pub url_of_scheme :
    (a text : String) (ps : List String) (u : TestUrl) → url_of (a ∷ ps) text ≡ ok u → u.scheme ≡ a
url_of_scheme a text [] u h = cc h
url_of_scheme a text (b ∷ ps) u h = cc h

pub data TestValue : Type 0 where
  list : List String → TestValue
  numbers : List ℕ → TestValue
  string : String → TestValue

abbrev print_value : TestValue → String
print_value (list ss) = join "," ss
print_value (numbers ns) = join "," (map (λ n. "#" <> decimal n) ns)
print_value (string s) = "\"" <> s

-- An object, or a number.
pub data TestVariable : Type 0 where
  text : String → TestVariable
  texts : List String → TestVariable
  object : TestVariable

abbrev has : ℕ → String → Bool
has n s = not (all_single (split (char_is n) s))
  where
    all_single : List String → Bool
    all_single (a ∷ []) = true
    all_single _ = false

abbrev quote : ℕ
quote = 34

abbrev after_quote : String → List String → TestVariable
after_quote s (a ∷ b ∷ _) = text b
after_quote s _ = texts (if is_blank s then [] else split (char_is b',') s)

abbrev read_variable : String → TestVariable
read_variable s = after_quote s (split (char_is quote) s)

abbrev variables : List String → List TestVariable
variables [] = []
variables (s ∷ ss) = (if has b'#' s then object else text s) ∷ variables ss

abbrev array_of : TestVariable → Option (List TestVariable)
array_of (text s) = none
array_of (texts ss) = some (variables ss)
array_of object = none

abbrev text_of : TestVariable → Option String
text_of (text s) = some s
text_of (texts ss) = none
text_of object = none

-- The expression `whole` matches all, the one for an endpoint what follows the equals sign; the others
-- match a text between quotes, which is captured, and the one with a plus asks for a character there.
abbrev quoted : String → List String → Option String
quoted r (before ∷ inside ∷ after) =
    if is_blank inside && r == "endpoint='([^']+)'" then none else some inside
quoted r _ = none

abbrev second : List String → Option String
second (a ∷ b ∷ _) = some b
second _ = none

abbrev captures_of : String → String → Option String
captures_of r body =
    if r == "whole"
    then some body
    else (if r == "endpoint=(https?://\\S+)"
        then second (split (char_is b'=') body)
        else quoted r (split (char_is 39) body))

abbrev pub one_minute : ℕ
one_minute = 60000000000

-- Never, the next minute, or the next moment.
abbrev next_execution : String → ℕ → Option ℕ
next_execution s now =
    if s == "0 0 0 30 2 *"
    then none
    else (if s == "0 * * * * *" then some ((now / one_minute + 1) * one_minute) else some (suc now))

-- A text that begins with the letter n is no JSON; any other is a list, which its first character
-- chooses.
abbrev value_of : List ℕ → Result TestValue String
value_of [] = err "EOF"
value_of (c ∷ cs) = if c =ℕ b'n' then err "expected value" else ok (list (lists c))
  where
    lists : ℕ → List String
    lists c =
        if c =ℕ b'a'
        then "10.0.0.0/24" ∷ []
        else (if c =ℕ b'b'
            then "192.0.2.0/24" ∷ []
            else (if c =ℕ b'c' then "203.0.113.0/24" ∷ [] else "192.0.2.0/24" ∷ "10.0.0.0/8" ∷ []))

abbrev pub test_libs : Libs
test_libs = record {
  Url = TestUrl;
  UrlError = String;
  url_parse = parse_url;
  url_scheme = λ u. u.scheme;
  url_error_text = λ e. e;
  IpAddr = String;
  ip_from_str = λ s. if s == "192.0.2.7" || s == "203.0.113.10" then some s else none;
  Regex = String;
  RegexError = String;
  Captures = String;
  regex_new = λ s. if is_blank s || s == "(" then err "no expression" else ok s;
  captures = captures_of;
  capture_get = λ g n. some g;
  regex_error_text = λ e. e;
  DateTime = ℕ;
  Schedule = String;
  ScheduleError = String;
  schedule_from_str = λ s. if s == "0 0 0 32 * *" then err "no such day" else ok s;
  schedule_after = next_execution;
  schedule_error_text = λ e. e;
  TimeDelta = ℕ;
  RangeError = String;
  signed_duration_since = λ a b. a - b;
  to_std = λ d. ok d;
  range_error_text = λ e. e;
  to_rfc3339 = λ t. decimal t;
  Value = TestValue;
  JsonError = String;
  value_to_string = λ v. ok (print_value v);
  value_from_slice = value_of;
  Expression = String;
  JmespathError = String;
  Variable = TestVariable;
  jmespath_compile = λ s. if is_blank s || s == "[" then err "no expression" else ok s;
  variable_from_json = λ s. ok (read_variable s);
  search_expression = λ e v. if e == "@" || e == "prefixes" then ok v else ok object;
  as_array = array_of;
  as_string = text_of;
  jmespath_error_text = λ e. e;
  IpNet = String;
  ipnet_parse = λ s. if has b'/' s then some s else none;
  is_v4 = λ s. not (has b':' s);
  ipnet_to_string = λ s. s;
  OwnerReference = String;
  owner_eq = string_eq;
  HttpError = String;
}
