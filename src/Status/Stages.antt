-- ===== src/Status/Stages.antt =====
-- The text under which a failure is stored tells its stage and its message apart.
use text.Mathlib.TextLemmas.{append_assoc, append_cancel_left}
use ipmaze.Base.{
  String, ◌≡◌, refl, sym, ap, ◌∙◌, Option, none, some, List, [], ◌∷◌, ◌<>◌, ◌==◌, string_eq,
  string_dec, if◌then◌else◌, arith,
}
use ipmaze.Text.{split, char_is}
use ipmaze.Text.Laws.{IsFreeOf, split-append}
use ipmaze.Status.{ReconcileStage, stage_as_str, stage_message}
use ReconcileStage.{
  validation, managed_policy_collision, pointer_retrieval, pointer_extraction, transport,
  json_decode, jmes_path_compile, jmes_path_evaluate, result_shape, cidr_validation,
  selector_translation, scheduling, kubernetes_api,
}

abbrev find_stage : String → List ReconcileStage → Option ReconcileStage
find_stage s [] = none
find_stage s (x ∷ xs) = if stage_as_str x == s then some x else find_stage s xs

abbrev stages : List ReconcileStage
stages =
    validation ∷ managed_policy_collision ∷ pointer_retrieval ∷ pointer_extraction ∷ transport
    ∷ json_decode ∷ jmes_path_compile ∷ jmes_path_evaluate ∷ result_shape ∷ cidr_validation
    ∷ selector_translation ∷ scheduling ∷ kubernetes_api ∷ []

find_stage-stage_as_str : (x : ReconcileStage) → find_stage (stage_as_str x) stages ≡ some x
unfolding stage_as_str string_eq string_dec
find_stage-stage_as_str validation = refl
find_stage-stage_as_str managed_policy_collision = refl
find_stage-stage_as_str pointer_retrieval = refl
find_stage-stage_as_str pointer_extraction = refl
find_stage-stage_as_str transport = refl
find_stage-stage_as_str json_decode = refl
find_stage-stage_as_str jmes_path_compile = refl
find_stage-stage_as_str jmes_path_evaluate = refl
find_stage-stage_as_str result_shape = refl
find_stage-stage_as_str cidr_validation = refl
find_stage-stage_as_str selector_translation = refl
find_stage-stage_as_str scheduling = refl
find_stage-stage_as_str kubernetes_api = refl

-- No stage's text has a colon.
stage_as_str-IsFreeOf : (x : ReconcileStage) → IsFreeOf (char_is b':') (stage_as_str x)
unfolding stage_as_str
stage_as_str-IsFreeOf validation = ground arith
stage_as_str-IsFreeOf managed_policy_collision = ground arith
stage_as_str-IsFreeOf pointer_retrieval = ground arith
stage_as_str-IsFreeOf pointer_extraction = ground arith
stage_as_str-IsFreeOf transport = ground arith
stage_as_str-IsFreeOf json_decode = ground arith
stage_as_str-IsFreeOf jmes_path_compile = ground arith
stage_as_str-IsFreeOf jmes_path_evaluate = ground arith
stage_as_str-IsFreeOf result_shape = ground arith
stage_as_str-IsFreeOf cidr_validation = ground arith
stage_as_str-IsFreeOf selector_translation = ground arith
stage_as_str-IsFreeOf scheduling = ground arith
stage_as_str-IsFreeOf kubernetes_api = ground arith

abbrev head_or_blank : List String → String
head_or_blank [] = ""
head_or_blank (p ∷ ps) = p

stage_part :
    (x : ReconcileStage) (m : String)
    → head_or_blank (split (char_is b':') (stage_message x m)) ≡ stage_as_str x
unfolding stage_message
stage_part x m =
    ap (λ t. head_or_blank (split (char_is b':') (stage_as_str x <> t))) (append_assoc ":" " " m)
    ∙ ap head_or_blank
        (split-append (char_is b':') ":" (stage_as_str x) (" " <> m) (stage_as_str-IsFreeOf x) refl)

-- Two failures that are stored under the same text have the same stage and the same message.
pub stage_message_injective :
    (x y : ReconcileStage) (m n : String)
    → stage_message x m ≡ stage_message y n
    → (x ≡ y) × (m ≡ n)
unfolding stage_message
stage_message_injective x y m n h =
    let texts : stage_as_str x ≡ stage_as_str y =
      sym (stage_part x m) ∙ ap (λ t. head_or_blank (split (char_is b':') t)) h ∙ stage_part y n in
    let found : some x ≡ some y =
      sym (find_stage-stage_as_str x)
      ∙ ap (λ t. find_stage t stages) texts
      ∙ find_stage-stage_as_str y in
    let same : x ≡ y = cc found in
    (
      same,
      append_cancel_left ": " m n (
          append_cancel_left (stage_as_str x) (": " <> m) (": " <> n)
            (h ∙ ap (λ z. stage_as_str z <> (": " <> n)) (sym same))),
    )
