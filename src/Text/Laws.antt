-- ===== src/Text/Laws.antt =====
-- `split` and `join`: the parts hold no separator, and joining them gives the text back.
use Prim.Native.String.{[], ◌∷◌}
use text.Mathlib.TextLemmas.{nil-append, cons-append}
use mathlib.Core.List.{◌++◌}
use mathlib.Core.Option.{some}
use ipmaze.Base.{
  Char, String, Bool, true, false, ◌≡◌, refl, sym, ap, ◌∙◌, inl, inr, List, [], ◌∷◌, Bool-cases,
  ◌<>◌, All,
}
use ipmaze.Text.{last_char, cons_first, split, join}

-- No character of the text passes the test.
abbrev pub IsFreeOf : (Char → Bool) → String → Type 0
IsFreeOf p [] = Unit
IsFreeOf p (c ∷ s) = (p c ≡ false) × IsFreeOf p s

cons_first-IsFreeOf :
    (p : Char → Bool) (c : Char) (ps : List String)
    → p c ≡ false
    → All (IsFreeOf p) ps
    → All (IsFreeOf p) (cons_first c ps)
cons_first-IsFreeOf p c [] h k = ((h, tt), tt)
cons_first-IsFreeOf p c (q ∷ ps) h k = ((h, k.0), k.1)

pub split-IsFreeOf : (p : Char → Bool) (s : String) → All (IsFreeOf p) (split p s)
unfolding split
split-IsFreeOf p [] = (tt, tt)
split-IsFreeOf p (c ∷ s) = elim (Bool-cases (p c)) [
  | inl cut ↦ rw cut (tt, split-IsFreeOf p s)
  | inr kept ↦ rw kept (cons_first-IsFreeOf p c (split p s) kept (split-IsFreeOf p s))
]

-- There is always a first part.
abbrev pub IsSplit : List String → Type 0
IsSplit [] = ⊥
IsSplit (q ∷ ps) = Unit

cons_first-IsSplit : (c : Char) (ps : List String) → IsSplit (cons_first c ps)
cons_first-IsSplit c [] = tt
cons_first-IsSplit c (q ∷ ps) = tt

pub split-IsSplit : (p : Char → Bool) (s : String) → IsSplit (split p s)
unfolding split
split-IsSplit p [] = tt
split-IsSplit p (c ∷ s) = elim (Bool-cases (p c)) [
  | inl cut ↦ rw cut tt
  | inr kept ↦ rw kept (cons_first-IsSplit c (split p s))
]

join-cons_blank : (d : String) (ps : List String) → IsSplit ps → join d ("" ∷ ps) ≡ d <> join d ps
join-cons_blank d [] h = absurd h
join-cons_blank d (q ∷ ps) h = nil-append (d <> join d (q ∷ ps))

join-cons_first :
    (d : String) (c : Char) (ps : List String) → join d (cons_first c ps) ≡ c ∷ join d ps
join-cons_first d c [] = refl
join-cons_first d c (q ∷ []) = refl
join-cons_first d c (q ∷ r ∷ ps) = cons-append c q (d <> join d (r ∷ ps))

-- The test accepts the separator alone.
abbrev pub Marks : (Char → Bool) → Char → Type 0
Marks p d = (c : Char) → p c ≡ true → c ≡ d

pub join-split :
    (p : Char → Bool) (d : Char) → Marks p d → (s : String) → join (d ∷ "") (split p s) ≡ s
unfolding split
join-split p d m [] = refl
join-split p d m (c ∷ s) = elim (Bool-cases (p c)) [
  | inl cut ↦ rw cut (
      join-cons_blank (d ∷ "") (split p s) (split-IsSplit p s)
      ∙ cons-append d "" (join (d ∷ "") (split p s))
      ∙ ap (◌∷◌ d) (nil-append (join (d ∷ "") (split p s)) ∙ join-split p d m s)
      ∙ ap (λ e. e ∷ s) (sym (m c cut)))
  | inr kept ↦ rw kept (join-cons_first (d ∷ "") c (split p s) ∙ ap (◌∷◌ c) (join-split p d m s))
]

-- Splitting a text that begins with a part free of separators.
pub split_of_IsFreeOf : (p : Char → Bool) (s : String) → IsFreeOf p s → split p s ≡ s ∷ []
unfolding split
split_of_IsFreeOf p [] h = refl
split_of_IsFreeOf p (c ∷ s) h = rw (h.0, split_of_IsFreeOf p s h.1)

pub split-append :
    (p : Char → Bool) (d : Char) (s t : String)
    → IsFreeOf p s
    → p d ≡ true
    → split p (s <> ((d ∷ "") <> t)) ≡ s ∷ split p t
unfolding split
split-append p d [] t h e = rw (nil-append, cons-append, nil-append, e)
split-append p d (c ∷ s) t h e = rw cons-append (rw (h.0, split-append p d s t h.1 e))

pub split-join :
    (p : Char → Bool) (d : Char) (q : String) (ps : List String)
    → p d ≡ true
    → All (IsFreeOf p) (q ∷ ps)
    → split p (join (d ∷ "") (q ∷ ps)) ≡ q ∷ ps
split-join p d q [] e h = split_of_IsFreeOf p q h.0
split-join p d q (r ∷ ps) e h =
    split-append p d q (join (d ∷ "") (r ∷ ps)) h.0 e ∙ ap (◌∷◌ q) (split-join p d r ps e h.1)

cons_first-append :
    (c : Char) (ps qs : List String) → IsSplit ps → cons_first c (ps ++ qs) ≡ cons_first c ps ++ qs
cons_first-append c [] qs h = absurd h
cons_first-append c (q ∷ ps) qs h = refl

-- A separator at the end makes an empty last part.
pub split-concat :
    (p : Char → Bool) (d : Char) (s : String)
    → p d ≡ true
    → split p (s <> d ∷ "") ≡ split p s ++ "" ∷ []
unfolding split
split-concat p d [] e = rw (nil-append, e)
split-concat p d (c ∷ s) e = rw cons-append (elim (Bool-cases (p c)) [
  | inl cut ↦ rw (cut, split-concat p d s e)
  | inr kept ↦
      rw (kept, split-concat p d s e)
        (cons_first-append c (split p s) ("" ∷ []) (split-IsSplit p s))
])

pub last_char-concat : (s : String) (d : Char) → last_char (s <> d ∷ "") ≡ some d
unfolding last_char
last_char-concat [] d = rw nil-append
last_char-concat (c ∷ []) d = rw cons-append (rw nil-append)
last_char-concat (c ∷ b ∷ s) d =
    ap last_char (cons-append c (b ∷ s) (d ∷ "") ∙ ap (◌∷◌ c) (cons-append b s (d ∷ "")))
    ∙ ap last_char (sym (cons-append b s (d ∷ "")))
    ∙ last_char-concat (b ∷ s) d

pub last_char-eq-some :
    (s : String) (d : Char) → last_char s ≡ some d → (t : String) × (s ≡ t <> d ∷ "")
unfolding last_char
last_char-eq-some [] d h = cc
last_char-eq-some (c ∷ []) d h =
    let e : c ≡ d = cc h in ("", ap (λ b. b ∷ "") e ∙ sym (nil-append (d ∷ "")))
last_char-eq-some (c ∷ b ∷ s) d h =
    let (t, e) = last_char-eq-some (b ∷ s) d h in
    (c ∷ t, ap (◌∷◌ c) e ∙ sym (cons-append c t (d ∷ "")))

pub IsFreeOf-append :
    (p : Char → Bool) (s t : String) → IsFreeOf p s → IsFreeOf p t → IsFreeOf p (s <> t)
IsFreeOf-append p [] t h k = rw nil-append k
IsFreeOf-append p (c ∷ s) t h k = rw cons-append (h.0, IsFreeOf-append p s t h.1 k)

pub IsFreeOf-right : (p : Char → Bool) (s t : String) → IsFreeOf p (s <> t) → IsFreeOf p t
IsFreeOf-right p [] t h = rw nil-append at h
IsFreeOf-right p (c ∷ s) t h =
    let k : IsFreeOf p (c ∷ (s <> t)) = rw cons-append at h in IsFreeOf-right p s t k.1

pub IsFreeOf-join :
    (p : Char → Bool) (d : String) (ps : List String)
    → IsFreeOf p d
    → All (IsFreeOf p) ps
    → IsFreeOf p (join d ps)
IsFreeOf-join p d [] h k = tt
IsFreeOf-join p d (q ∷ []) h k = k.0
IsFreeOf-join p d (q ∷ r ∷ ps) h k =
    IsFreeOf-append p q (d <> join d (r ∷ ps)) k.0
      (IsFreeOf-append p d (join d (r ∷ ps)) h (IsFreeOf-join p d (r ∷ ps) h k.1))
