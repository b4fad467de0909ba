-- ===== src/Validation/Sound.antt =====
-- When validation accepts a spec: each check against a description of what it is to accept.
use ipmaze.Base.{
  String, false, ◌≡◌, ◌≢◌, ◌↔◌, refl, sym, inl, inr, Option, none, some, List, [], ◌∷◌, arith,
  length, is_empty, All, ok, map_option, unwrap_or, ◌<>◌, Result-cases,
}
use ipmaze.Libs.{Libs}
use ipmaze.Text.{split_whitespace}
use ipmaze.Api.{RuleSpec, CidrPolicySpec}
use ipmaze.Source.{normalize_source_address}
use ipmaze.Extract.{compile_query}
use ipmaze.Validation.{
  ValidatedPolicy, validate_pointer_regex, validate_resync_schedule, validate_spec,
}
use ipmaze.Validation.Rules.{
  IsValidSelector, IsValidRule, validate_selector_iff, validate_rules_iff,
}

module _ (L : Libs) where
  open L use {Regex, Expression, Schedule, regex_new, schedule_from_str}

  -- The pointer's regular expression is absent or compiles.
  abbrev pub Compiles : Option String → Option Regex → Type 0
  Compiles none regex = regex ≡ none
  Compiles (some text) regex = (r : Regex) × (regex_new text ≡ ok r) × (regex ≡ some r)

  validate_pointer_regex_iff :
      (text : Option String) (regex : Option Regex)
      → (validate_pointer_regex L text ≡ ok regex) ↔ Compiles text regex
  unfolding validate_pointer_regex
  validate_pointer_regex_iff none regex = (λ h. cc h, λ h. cc h)
  validate_pointer_regex_iff (some text) regex = elim (Result-cases (regex_new text)) [
    | inl (r, good) ↦ (
      λ h. (r, good, sym (ground arith)),
      λ h. let same : r ≡ h.0 = cc (good, h.1) in let e = h.2 in ground arith,
    )
    | inr (e, bad) ↦ (λ h. absurd (ground arith), λ h. cc (h.1))
  ]

  -- The schedule, or the default one, has five fields and is parsed with a zero for the seconds.
  abbrev pub IsSchedule : Option String → Schedule → Type 0
  IsSchedule given schedule =
      (length (split_whitespace (unwrap_or given "0 0 * * *")) ≡ 5)
      × (schedule_from_str ("0 " <> unwrap_or given "0 0 * * *") ≡ ok schedule)

  validate_resync_schedule_iff :
      (given : Option String) (schedule : Schedule)
      → (validate_resync_schedule L given ≡ ok schedule) ↔ IsSchedule given schedule
  unfolding validate_resync_schedule
  validate_resync_schedule_iff given schedule =
      (λ h. (ground arith, ground arith), λ h. ground arith)

  -- What an accepted spec is, and what is made of it.
  pub record IsValidSpec (spec : CidrPolicySpec) (v : ValidatedPolicy L) : Type 0 where
    pub given : spec.rules ≢ []
    pub address : normalize_source_address L spec.source.address ≡ ok v.source_address
    pub pointer : Compiles (map_option (λ p. p.regex) spec.source.pointer) v.pointer_regex
    pub query : (e : Expression) × (compile_query L spec.source.jmes_path ≡ ok e)
    pub schedule : IsSchedule spec.resync_schedule v.resync_schedule
    pub target : IsValidSelector spec.target.pod_selector
    pub rules : All IsValidRule spec.rules

  is_empty_iff : (rules : List RuleSpec) → (is_empty rules ≡ false) ↔ (rules ≢ [])
  is_empty_iff [] = (λ h. cc h, λ h. absurd (h refl))
  is_empty_iff (r ∷ rs) = (λ h e. cc e, λ h. refl)

  validate_spec_forth :
      (spec : CidrPolicySpec) (v : ValidatedPolicy L)
      → validate_spec L spec ≡ ok v
      → IsValidSpec spec v
  unfolding validate_spec
  validate_spec_forth spec v h = record {
    given = (is_empty_iff spec.rules).0 (ground arith);
    address = ground arith;
    pointer =
        (validate_pointer_regex_iff (map_option (λ p. p.regex) spec.source.pointer)
            v.pointer_regex).0
          (ground arith);
    query = elim (Result-cases (compile_query L spec.source.jmes_path)) [
      | inl found ↦ found
      | inr (e, bad) ↦ absurd (ground arith)
    ];
    schedule =
        (validate_resync_schedule_iff spec.resync_schedule v.resync_schedule).0 (ground arith);
    target = (validate_selector_iff L spec.target.pod_selector).0 (ground arith);
    rules = (validate_rules_iff L spec.rules).0 (ground arith);
  }

  validate_spec_back :
      (spec : CidrPolicySpec) (v : ValidatedPolicy L)
      → IsValidSpec spec v
      → validate_spec L spec ≡ ok v
  unfolding validate_spec
  validate_spec_back spec v h = ground (
    arith,
    (is_empty_iff spec.rules).1 h.given,
    h.address,
    (validate_pointer_regex_iff (map_option (λ p. p.regex) spec.source.pointer) v.pointer_regex).1
        h.pointer,
    h.query.1,
    (validate_resync_schedule_iff spec.resync_schedule v.resync_schedule).1 h.schedule,
    (validate_selector_iff L spec.target.pod_selector).1 h.target,
    (validate_rules_iff L spec.rules).1 h.rules,
  )

  -- Validation accepts a spec, with a given result, exactly when: there are rules; the address
  -- is read; the pointer's expression, if any, and the query compile; the schedule, or the daily
  -- default, has five fields and is parsed; the subject selector is sound; and each rule has a
  -- selector, no empty list of directions, and sound selectors.
  pub validate_spec_iff :
      (spec : CidrPolicySpec) (v : ValidatedPolicy L)
      → (validate_spec L spec ≡ ok v) ↔ IsValidSpec spec v
  validate_spec_iff spec v = (validate_spec_forth spec v, validate_spec_back spec v)
