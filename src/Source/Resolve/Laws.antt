-- ===== src/Source/Resolve/Laws.antt =====
-- What a successful resolution rests on, and which errors each request can end in.
use ipmaze.Base.{
  String, true, false, ◌≡◌, sym, ap, ◌∙◌, Option, none, some, arith, ok, err, ok_or, map_err,
  ok_or-eq-ok, map_err-eq-ok, >>=-eq-ok as result->>=-eq-ok,
}
use ipmaze.Base.Action.{lift, >>=-eq-ok, ok_pair, result_pair}
use ipmaze.Libs.{Libs}
use ipmaze.World.{World}
use ipmaze.Text.{trim, is_blank}
use ipmaze.Source.{
  NormalizedRemoteAddress, ResolvedSource, FetchError, pointer_retrieval, final_retrieval,
  invalid_json, pointer_extraction_no_match, pointer_extraction_empty_capture,
  pointer_resolved_address, normalize_source_address, captured_address, follow_pointer,
}
use ipmaze.Source.Normalize.{normalize_source_address-trim}
use ipmaze.Source.Resolve.{
  fetch_text, fetch_json, parse_json_bytes, resolve_pointer, resolve_final_source,
}

module _ (L : Libs) (W : World L) where
  open L use {Value, Regex, Captures, captures, capture_get}
  open W use {State}

  captured_address-eq-some :
      (groups : Captures) (c : String)
      → captured_address L groups ≡ some c
      → (raw : String) × (capture_get groups 1 ≡ some raw) × (trim raw ≡ c) × (is_blank c ≡ false)
  unfolding captured_address
  captured_address-eq-some groups c h = ground arith

  -- The final address comes from one retrieval of the base address: the body matches, the first
  -- group captures a text that is not blank, and that text, untrimmed, is read as an address.
  abbrev pub FromPointer :
      NormalizedRemoteAddress L → Regex → NormalizedRemoteAddress L → State → State → Type 0
  FromPointer base regex final s s' =
      (body : String) × (groups : Captures) × (raw : String) × (fetch_text L W base s
        ≡ (ok body, s'))
      × (captures regex body ≡ some groups)
      × (capture_get groups 1 ≡ some raw)
      × (is_blank (trim raw) ≡ false)
      × (normalize_source_address L raw ≡ ok final)

  -- Where the final address comes from, with and without a pointer.
  abbrev pub Origin :
      NormalizedRemoteAddress L → Option Regex → ResolvedSource L → State → State → Type 0
  Origin base none r s s' = (r.final_address ≡ base) × (r.pointer_used ≡ false) × (s' ≡ s)
  Origin base (some regex) r s s' =
      FromPointer base regex r.final_address s s' × (r.pointer_used ≡ true)

  resolve_pointer-eq-ok :
      (base : NormalizedRemoteAddress L) (regex : Regex) (s s' : State) (r : ResolvedSource L)
      → resolve_pointer L W base regex s ≡ (ok r, s')
      → (r.base_address ≡ base) × Origin base (some regex) r s s'
  unfolding resolve_pointer follow_pointer
  resolve_pointer-eq-ok base regex s s' r h =
      let (body, s₁, fetched, h₁) =
        >>=-eq-ok (fetch_text L W base) (λ body. lift (follow_pointer L base regex body)) s h in
      let (followed, same) = result_pair h₁ in
      let (groups, matched, h₂) =
        result->>=-eq-ok (ok_or (captures regex body) pointer_extraction_no_match) _ followed in
      let (c, captured, h₃) =
        result->>=-eq-ok (ok_or (captured_address L groups) pointer_extraction_empty_capture) _
          h₂ in
      let (final, read, h₄) =
        result->>=-eq-ok (map_err pointer_resolved_address (normalize_source_address L c)) _ h₃ in
      let (raw, group, trimmed, text) =
        captured_address-eq-some groups c
          (ok_or-eq-ok (captured_address L groups) pointer_extraction_empty_capture captured) in
      let made : record { base_address = base; final_address = final; pointer_used = true } ≡ r =
        cc h₄ in
      let address : normalize_source_address L raw ≡ ok final =
        sym (normalize_source_address-trim L raw)
        ∙ ap (normalize_source_address L) trimmed
        ∙ map_err-eq-ok pointer_resolved_address (normalize_source_address L c) read in
      (
        ap (λ x. x.base_address) (sym made),
        (
          (
            body,
            groups,
            raw,
            fetched ∙ ap (λ x. (ok body, x)) same,
            ok_or-eq-ok (captures regex body) pointer_extraction_no_match matched,
            group,
            ap is_blank trimmed ∙ text,
            address ∙ ap (λ x. ok x.final_address) made,
          ),
          ap (λ x. x.pointer_used) (sym made),
        ),
      )

  -- A successful resolution keeps the base address. Without a pointer the final address is the base
  -- one and nothing is requested. With one, the base address is retrieved once, and the final
  -- address is what the first capture group of the first match would be as a configured address.
  pub resolve_final_source-Origin :
      (base : NormalizedRemoteAddress L) (pointer : Option Regex) (s s' : State)
      (r : ResolvedSource L)
      → resolve_final_source L W base pointer s ≡ (ok r, s')
      → (r.base_address ≡ base) × Origin base pointer r s s'
  unfolding resolve_final_source
  resolve_final_source-Origin base none s s' r h =
      let (made, same) = ok_pair h in
      (
        ap (λ x. x.base_address) (sym made),
        (ap (λ x. x.final_address) (sym made), ap (λ x. x.pointer_used) (sym made), sym same),
      )
  resolve_final_source-Origin base (some regex) s s' r h = resolve_pointer-eq-ok base regex s s' r h

  -- The errors of the two requests.
  abbrev pub IsPointerError : FetchError L → Type 0
  IsPointerError (pointer_retrieval _) = Unit
  IsPointerError pointer_extraction_no_match = Unit
  IsPointerError pointer_extraction_empty_capture = Unit
  IsPointerError (pointer_resolved_address _) = Unit
  IsPointerError _ = ⊥

  abbrev pub IsFinalError : FetchError L → Type 0
  IsFinalError (final_retrieval _) = Unit
  IsFinalError (invalid_json _) = Unit
  IsFinalError _ = ⊥

  fetch_text_err :
      (a : NormalizedRemoteAddress L) (s s' : State) (e : FetchError L)
      → fetch_text L W a s ≡ (err e, s')
      → (x : L.HttpError) × (pointer_retrieval x ≡ e)
  unfolding fetch_text
  fetch_text_err a s s' e h = ground arith

  resolve_pointer_err :
      (base : NormalizedRemoteAddress L) (regex : Regex) (s s' : State) (e : FetchError L)
      → resolve_pointer L W base regex s ≡ (err e, s')
      → IsPointerError e
  unfolding resolve_pointer follow_pointer fetch_text
  resolve_pointer_err base regex s s' e h = ground arith

  pub resolve_final_source-IsPointerError :
      (base : NormalizedRemoteAddress L) (pointer : Option Regex) (s s' : State) (e : FetchError L)
      → resolve_final_source L W base pointer s ≡ (err e, s')
      → IsPointerError e
  unfolding resolve_final_source
  resolve_final_source-IsPointerError base none s s' e h = cc h
  resolve_final_source-IsPointerError base (some regex) s s' e h =
      resolve_pointer_err base regex s s' e h

  pub fetch_json-IsFinalError :
      (a : NormalizedRemoteAddress L) (s s' : State) (e : FetchError L)
      → fetch_json L W a s ≡ (err e, s')
      → IsFinalError e
  unfolding fetch_json parse_json_bytes
  fetch_json-IsFinalError a s s' e h = ground arith
