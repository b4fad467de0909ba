-- ===== src/Validation/Refused.antt =====
-- What is wrong with a spec that validation refuses.
use ipmaze.Base.{
  true, ◌≡◌, refl, inl, inr, List, [], ◌∷◌, err, Result-cases, Bool-cases, Option-cases, is_empty,
  arith, map_option, unwrap_or, length, ◌<>◌, ◌>>◌, ◌=ℕ◌,
}
use mathlib.Core.Path.{subst}
use ipmaze.Libs.{Libs}
use ipmaze.Text.{split_whitespace}
use ipmaze.Api.{RuleSpec, CidrPolicySpec}
use ipmaze.Source.{normalize_source_address}
use ipmaze.Extract.{compile_query}
use ipmaze.Validation.{
  ValidationError, validate_selector, validate_rules, validate_pointer_regex,
  validate_resync_schedule, validate_spec,
}
use ipmaze.Validation.Faults.{
  SpecFault, no_rules, bad_address, bad_pointer, bad_query, bad_shape, bad_schedule, bad_target,
  bad_rule,
}
use ipmaze.Validation.RuleFaults.{rules_fault, selector_fault}

module _ (L : Libs) where
  open L use {RegexError, regex_new, schedule_from_str, schedule_error_text}

  pointer_fault :
      (spec : CidrPolicySpec) (e : ValidationError L)
      → validate_pointer_regex L (map_option (λ p. p.regex) spec.source.pointer) ≡ err e
      → SpecFault L spec e
  unfolding validate_pointer_regex
  pointer_fault spec e h = elim (Option-cases (map_option (λ p. p.regex) spec.source.pointer)) [
    | inl absent ↦ absurd (ground arith)
    | inr (text, given) ↦ elim (Result-cases (regex_new text)) [
      | inl (r, good) ↦ absurd (ground arith)
      | inr (x, bad) ↦ subst (SpecFault L spec) (ground arith) (bad_pointer text x given bad)
    ]
  ]

  schedule_fault :
      (spec : CidrPolicySpec) (e : ValidationError L)
      → validate_resync_schedule L spec.resync_schedule ≡ err e
      → SpecFault L spec e
  unfolding validate_resync_schedule
  schedule_fault spec e h =
      let given = unwrap_or spec.resync_schedule "0 0 * * *" in
      elim (Bool-cases (length (split_whitespace given) =ℕ 5)) [
        | inr other ↦ subst (SpecFault L spec) (ground arith) (bad_shape (λ five. ground arith))
        | inl five ↦ elim (Result-cases (schedule_from_str ("0 " <> given))) [
          | inl (schedule, good) ↦ absurd (ground arith)
          | inr (x, bad) ↦ subst (SpecFault L spec) (ground arith) (bad_schedule x bad)
        ]
      ]

  none_listed : (rules : List RuleSpec) → is_empty rules ≡ true → rules ≡ []
  none_listed [] h = refl
  none_listed (rule ∷ rules) h = cc h

  selectors_fault :
      (spec : CidrPolicySpec) (e : ValidationError L)
      → (validate_selector L spec.target.pod_selector >> validate_rules L spec.rules) ≡ err e
      → SpecFault L spec e
  selectors_fault spec e h = elim (Result-cases (validate_selector L spec.target.pod_selector)) [
    | inr (x, bad) ↦ bad_target e (selector_fault L spec.target.pod_selector e (ground arith))
    | inl (u, good) ↦
        let (rule, among, fault) = rules_fault L spec.rules e (ground arith) in
        bad_rule rule e among fault
  ]

  -- When validation refuses a spec, what its error says is so: there are no rules; the address, the
  -- pointer's expression, the query or the schedule is refused with that very error, or the
  -- schedule has another number of fields than five; or the target's selector or one of the
  -- rules is at fault, where a rule lacks a selector, lists no direction, or has a selector with a
  -- requirement whose key is blank or whose values its operator does not go with.
  pub validate_spec-SpecFault :
      (spec : CidrPolicySpec) (e : ValidationError L)
      → validate_spec L spec ≡ err e
      → SpecFault L spec e
  unfolding validate_spec
  validate_spec-SpecFault spec e h = elim (Bool-cases (is_empty spec.rules)) [
    | inl bare ↦ subst (SpecFault L spec) (ground arith) (no_rules (none_listed spec.rules bare))
    | inr given ↦ elim (Result-cases (normalize_source_address L spec.source.address)) [
      | inr (x, bad) ↦ subst (SpecFault L spec) (ground arith) (bad_address x bad)
      | inl (address, a) ↦
          let regex = validate_pointer_regex L (map_option (λ p. p.regex) spec.source.pointer) in
          elim (Result-cases regex) [
            | inr (x, bad) ↦ pointer_fault spec e (ground arith)
            | inl (r, b) ↦ elim (Result-cases (compile_query L spec.source.jmes_path)) [
              | inr (x, bad) ↦ subst (SpecFault L spec) (ground arith) (bad_query x bad)
              | inl (query, c) ↦
                  elim (Result-cases (validate_resync_schedule L spec.resync_schedule)) [
                    | inr (x, bad) ↦ schedule_fault spec e (ground arith)
                    | inl (schedule, d) ↦ selectors_fault spec e (ground arith)
                  ]
            ]
          ]
    ]
  ]
