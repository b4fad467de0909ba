-- ===== src/Source/Hostname/Grammar.antt =====
-- The grammar that the hostname tests decide: labels of letters, digits and inner hyphens, joined
-- by dots.
use Prim.Native.String.{[], ◌∷◌, len}
use text.Mathlib.TextEquality.{Char-path}
use text.Mathlib.TextLemmas.{cons-append, nil-append, cons-ne-nil, head-eq_of_cons-eq}
use mathlib.Core.Path.{subst}
use ipmaze.Base.{
  Char, code, String, true, false, ◌≡◌, ◌≢◌, ◌↔◌, ◌⊎◌, ◌≤◌, refl, sym, ap, ◌∙◌, inl, inr, List, [],
  ◌∷◌, ◌++◌, arith, Bool-cases, Option-cases, ◌<>◌, All, all, is_some_and,
}
use ipmaze.Text.{is_blank, first_char, last_char, char_is, all_chars, split, join}
use ipmaze.Text.Laws.{
  IsFreeOf, Marks, IsSplit, split-IsSplit, join-split, split-join, split-concat, last_char-concat,
  last_char-eq-some, IsFreeOf-right, IsFreeOf-join,
}
use ipmaze.Source.Hostname.{
  is_ascii_alphanumeric, is_label_char, is_valid_hostname_label, is_valid_hostname,
}

abbrev pub IsLabelChar : Char → Type 0
IsLabelChar c =
    ((b'0' ≤ code c) × (code c ≤ b'9'))
    ⊎ (((b'A' ≤ code c) × (code c ≤ b'Z'))
        ⊎ (((b'a' ≤ code c) × (code c ≤ b'z')) ⊎ (code c ≡ b'-')))

abbrev pub IsLabelText : String → Type 0
IsLabelText [] = Unit
IsLabelText (c ∷ s) = IsLabelChar c × IsLabelText s

-- A label: 1 to 63 letters, digits and hyphens, with no hyphen at either end.
pub record IsLabel (label : String) : Type 0 where
  pub non_empty : label ≢ ""
  pub short : len label ≤ 63
  pub letters : IsLabelText label
  pub no_leading_hyphen : (s : String) → label ≢ "-" <> s
  pub no_trailing_hyphen : (s : String) → label ≢ s <> "-"

-- A hostname: one or more labels joined by dots, 253 bytes at most.
pub record IsHostname (value : String) : Type 0 where
  pub first : String
  pub others : List String
  pub joined : value ≡ join "." (first ∷ others)
  pub labelled : All IsLabel (first ∷ others)
  pub short : len value ≤ 253

is_label_char_iff : (c : Char) → (is_label_char c ≡ true) ↔ IsLabelChar c
unfolding is_ascii_alphanumeric
is_label_char_iff c = ground arith

all_chars_iff : (s : String) → (all_chars is_label_char s ≡ true) ↔ IsLabelText s
all_chars_iff [] = (λ _. tt, λ _. refl)
all_chars_iff (c ∷ s) = (
  λ h. ground (arith, (is_label_char_iff c).0, (all_chars_iff s).0),
  λ h. ground (arith, (is_label_char_iff c).1, (all_chars_iff s).1),
)

abbrev hyphen : Char
hyphen = "-"

hyphen_of_test : (c : Char) → char_is b'-' c ≡ true → c ≡ hyphen
hyphen_of_test c h = Char-path c hyphen (ground arith)

-- The tests on the ends of a label say that it neither begins nor ends with a hyphen.
hyphen_first :
    (s : String)
    → (is_some_and (first_char s) (char_is b'-') ≡ false) ↔ ((t : String) → s ≢ "-" <> t)
hyphen_first [] =
    (λ _ t e. cons-ne-nil hyphen ("" <> t) (sym (e ∙ cons-append hyphen "" t)), λ _. refl)
hyphen_first (c ∷ s) = (
  λ h t e.
      let k : c ≡ hyphen = head-eq_of_cons-eq (e ∙ cons-append hyphen "" t) in
      cc (subst (λ x. char_is b'-' x ≡ false) k h),
  λ h. elim (Bool-cases (char_is b'-' c)) [
    | inl is ↦ absurd (
        h s (
          ap (λ x. x ∷ s) (hyphen_of_test c is)
          ∙ sym (cons-append hyphen "" s ∙ ap (◌∷◌ hyphen) (nil-append s))))
    | inr isnt ↦ isnt
  ],
)

hyphen_last :
    (s : String)
    → (is_some_and (last_char s) (char_is b'-') ≡ false) ↔ ((t : String) → s ≢ t <> "-")
hyphen_last s = (
  λ h t e. cc (
    subst (λ x. is_some_and (last_char x) (char_is b'-') ≡ false) e h,
    last_char-concat t hyphen,
  ),
  λ h. elim (Option-cases (last_char s)) [
    | inl no_char ↦ rw no_char
    | inr (c, found) ↦ rw found (elim (Bool-cases (char_is b'-' c)) [
      | inl is ↦
          let (t, e) = last_char-eq-some s c found in
          absurd (h t (e ∙ ap (λ x. t <> x ∷ "") (hyphen_of_test c is)))
      | inr isnt ↦ isnt
    ])
  ],
)

is_blank_iff : (s : String) → (is_blank s ≡ false) ↔ (s ≢ "")
is_blank_iff [] = (λ h. cc, λ h. absurd (h refl))
is_blank_iff (c ∷ s) = (λ h. cons-ne-nil c s, λ h. refl)

-- The label test decides the grammar of labels.
pub is_valid_hostname_label_iff :
    (label : String) → (is_valid_hostname_label label ≡ true) ↔ IsLabel label
unfolding is_valid_hostname_label
is_valid_hostname_label_iff label = (
  λ h. record {
    non_empty = (is_blank_iff label).0 (ground arith);
    short = ground arith;
    letters = (all_chars_iff label).0 (ground arith);
    no_leading_hyphen = (hyphen_first label).0 (ground arith);
    no_trailing_hyphen = (hyphen_last label).0 (ground arith);
  },
  λ h. ground (
    arith,
    (is_blank_iff label).1 h.non_empty,
    (all_chars_iff label).1 h.letters,
    (hyphen_first label).1 h.no_leading_hyphen,
    (hyphen_last label).1 h.no_trailing_hyphen,
  ),
)

abbrev dot : Char
dot = "."

dot-Marks : Marks (char_is b'.') dot
dot-Marks c h = Char-path c dot (ground arith)

letters-IsFreeOf : (s : String) → IsLabelText s → IsFreeOf (char_is b'.') s
letters-IsFreeOf [] h = tt
letters-IsFreeOf (c ∷ s) h = (ground arith, letters-IsFreeOf s h.1)

all_labels_iff :
    (labels : List String) → (all is_valid_hostname_label labels ≡ true) ↔ All IsLabel labels
all_labels_iff [] = (λ _. tt, λ _. refl)
all_labels_iff (l ∷ ls) = (
  λ h. ((is_valid_hostname_label_iff l).0 (ground arith), (all_labels_iff ls).0 (ground arith)),
  λ h. ground (arith, (is_valid_hostname_label_iff l).1 h.0, (all_labels_iff ls).1 h.1),
)

All-labels_free : (labels : List String) → All IsLabel labels → All (IsFreeOf (char_is b'.')) labels
All-labels_free [] h = tt
All-labels_free (l ∷ ls) h = (letters-IsFreeOf l h.0.letters, All-labels_free ls h.1)

-- An empty part is no label: so a text whose parts are labels has no dot at its ends.
all_labels-append_blank :
    (labels : List String) → all is_valid_hostname_label (labels ++ "" ∷ []) ≡ false
unfolding is_valid_hostname_label
all_labels-append_blank [] = refl
all_labels-append_blank (l ∷ ls) = ground (arith, all_labels-append_blank ls)

no_dot_first :
    (s : String)
    → all is_valid_hostname_label (split (char_is b'.') s) ≡ true
    → (is_blank s ≡ false) × (is_some_and (first_char s) (char_is b'.') ≡ false)
unfolding split is_valid_hostname_label
no_dot_first [] h = cc
no_dot_first (c ∷ s) h = ground arith

no_dot_last :
    (s : String)
    → all is_valid_hostname_label (split (char_is b'.') s) ≡ true
    → is_some_and (last_char s) (char_is b'.') ≡ false
no_dot_last s h = elim (Option-cases (last_char s)) [
  | inl no_char ↦ rw no_char
  | inr (c, found) ↦ rw found (elim (Bool-cases (char_is b'.' c)) [
    | inl is ↦
        let (t, e) = last_char-eq-some s c found in
        let parts = ap (split (char_is b'.')) e ∙ split-concat (char_is b'.') c t is in
        cc (
          subst (λ ps. all is_valid_hostname_label ps ≡ true) parts h,
          all_labels-append_blank (split (char_is b'.') t),
        )
    | inr isnt ↦ isnt
  ])
]

IsHostname-of_parts :
    (value : String) (parts : List String)
    → IsSplit parts
    → join "." parts ≡ value
    → All IsLabel parts
    → len value ≤ 253
    → IsHostname value
IsHostname-of_parts value [] s j a h = absurd s
IsHostname-of_parts value (l ∷ ls) s j a h = record {
  first = l;
  others = ls;
  joined = sym j;
  labelled = a;
  short = h;
}

-- `is_valid_hostname` accepts exactly the texts of the hostname grammar.
pub is_valid_hostname_iff : (value : String) → (is_valid_hostname value ≡ true) ↔ IsHostname value
unfolding is_valid_hostname
is_valid_hostname_iff value = (
  λ h.
      IsHostname-of_parts value (split (char_is b'.') value) (split-IsSplit (char_is b'.') value)
        (join-split (char_is b'.') dot dot-Marks value)
        ((all_labels_iff (split (char_is b'.') value)).0 (ground arith)) (ground arith),
  λ h.
      let parts =
        ap (split (char_is b'.')) h.joined
        ∙ split-join (char_is b'.') dot h.first h.others refl
            (All-labels_free (h.first ∷ h.others) h.labelled) in
      let every =
        ap (all is_valid_hostname_label) parts
        ∙ (all_labels_iff (h.first ∷ h.others)).1 h.labelled in
      ground (arith, every, no_dot_first value every, no_dot_last value every, h.short),
)

labels_without_slash :
    (labels : List String) → All IsLabel labels → All (IsFreeOf (char_is b'/')) labels
labels_without_slash [] h = tt
labels_without_slash (l ∷ ls) h = (letters_without_slash l h.0.letters, labels_without_slash ls h.1)
  where
    letters_without_slash : (s : String) → IsLabelText s → IsFreeOf (char_is b'/') s
    letters_without_slash [] h = tt
    letters_without_slash (c ∷ s) h = (ground arith, letters_without_slash s h.1)

-- A text with a slash is no hostname.
pub IsHostname-no_slash : (a b : String) → ¬ IsHostname (a <> ("/" <> b))
IsHostname-no_slash a b h =
    let free : IsFreeOf (char_is b'/') (a <> ("/" <> b)) = rw h.joined (
      IsFreeOf-join (char_is b'/') "." (h.first ∷ h.others) (refl, tt)
        (labels_without_slash (h.first ∷ h.others) h.labelled)) in
    let rest : IsFreeOf (char_is b'/') ("/" ∷ ("" <> b)) =
      rw cons-append at (IsFreeOf-right (char_is b'/') a ("/" <> b) free) in
    cc rest.0
