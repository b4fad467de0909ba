-- ===== src/Source/Normalize/Accepted.antt =====
-- Which addresses `normalize_source_address` accepts, and as what.
use ipmaze.Base.{
  String, ◌≡◌, ◌≢◌, ◌↔◌, ◌<>◌, sym, ap, ◌∙◌, inl, inr, none, some, ok, err, arith, Bool-cases,
  Option-cases, Result-cases, string_eq, ==_iff,
}
use mathlib.Core.Path.{subst}
use ipmaze.Libs.{Libs}
use ipmaze.Text.{trim, is_blank}
use ipmaze.Source.{
  RemoteAddress, url, hostname, ip, NormalizedRemoteAddress, with_url, of_url, of_bare, of_trimmed,
  normalize_source_address,
}
use ipmaze.Source.Hostname.{is_valid_hostname}
use ipmaze.Source.Hostname.Grammar.{IsHostname, is_valid_hostname_iff}
use ipmaze.Source.Normalize.{
  IsWeb, not_blank, of_trimmed_blank, of_trimmed_url, of_trimmed_bare, of_bare_ip, of_bare_hostname,
  of_bare_invalid, by_scheme,
}

module _ (L : Libs) where
  open L use {Url, UrlError, IpAddr, url_parse, url_scheme, ip_from_str}

  abbrev address_of : String → RemoteAddress L → Url → NormalizedRemoteAddress L
  address_of t a u = record { original = t; remote_address = a; request_url = u }

  -- What a text without blanks round it is taken for: a URL over HTTP or HTTPS; failing that an IP
  -- address, for which a URL over HTTP is made; failing that a hostname, with one over HTTPS.
  pub data Reading (t : String) : NormalizedRemoteAddress L → Type 0 where
    as_url : (u : Url) → url_parse t ≡ ok u → IsWeb L u → Reading t (address_of t (url u) u)
    as_ip :
        (e : UrlError) (a : IpAddr) (u : Url)
        → url_parse t ≡ err e
        → ip_from_str t ≡ some a
        → url_parse ("http://" <> (t <> "/")) ≡ ok u
        → Reading t (address_of t (ip a) u)
    as_hostname :
        (e : UrlError) (u : Url)
        → url_parse t ≡ err e
        → ip_from_str t ≡ none
        → IsHostname t
        → url_parse ("https://" <> (t <> "/")) ≡ ok u
        → Reading t (address_of t (hostname t) u)

  with_url_inv :
      (t : String) (a : RemoteAddress L) (text : String) (n : NormalizedRemoteAddress L)
      → with_url L t a text ≡ ok n
      → (u : Url) × (url_parse text ≡ ok u) × (address_of t a u ≡ n)
  unfolding with_url
  with_url_inv t a text n h = elim (Result-cases (url_parse text)) [
    | inl (u, e) ↦ (u, e, ground arith)
    | inr (x, e) ↦ absurd (ground arith)
  ]

  with_url_of :
      (t : String) (a : RemoteAddress L) (text : String) (u : Url)
      → url_parse text ≡ ok u
      → with_url L t a text ≡ ok (address_of t a u)
  unfolding with_url
  with_url_of t a text u e = ground arith

  read_url :
      (t : String) (u : Url) (n : NormalizedRemoteAddress L)
      → url_parse t ≡ ok u
      → of_url L t u ≡ ok n
      → Reading t n
  unfolding of_url
  read_url t u n is h =
      let a = ==_iff (url_scheme u) "http" in
      let b = ==_iff (url_scheme u) "https" in
      let web : IsWeb L u = ground arith in subst (Reading t) (ground arith) (as_url u is web)

  read_bare :
      (t : String) (e : UrlError) (n : NormalizedRemoteAddress L)
      → url_parse t ≡ err e
      → of_bare L t ≡ ok n
      → Reading t n
  read_bare t e n refused h = elim (Option-cases (ip_from_str t)) [
    | inr (a, is) ↦
        let (u, made, same) =
          with_url_inv t (ip a) ("http://" <> (t <> "/")) n (sym (of_bare_ip L t a is) ∙ h) in
        subst (Reading t) same (as_ip e a u refused is made)
    | inl isnt ↦ elim (Bool-cases (is_valid_hostname t)) [
      | inl named ↦
          let (u, made, same) =
            with_url_inv t (hostname t) ("https://" <> (t <> "/")) n
              (sym (of_bare_hostname L t isnt named) ∙ h) in
          subst (Reading t) same
            (as_hostname e u refused isnt ((is_valid_hostname_iff t).0 named) made)
      | inr unnamed ↦ absurd (cc (of_bare_invalid L t isnt unnamed, h))
    ]
  ]

  read_trimmed :
      (t : String) (n : NormalizedRemoteAddress L) → of_trimmed L t ≡ ok n → (t ≢ "") × Reading t n
  read_trimmed t n h = elim (Bool-cases (is_blank t)) [
    | inl blank ↦ absurd (cc (of_trimmed_blank L t blank, h))
    | inr text ↦ (
      λ e. cc (text, ap is_blank e),
      elim (Result-cases (url_parse t)) [
        | inl (u, is) ↦ read_url t u n is (sym (of_trimmed_url L t u text is) ∙ h)
        | inr (e, isnt) ↦ read_bare t e n isnt (sym (of_trimmed_bare L t e text isnt) ∙ h)
      ],
    )
  ]

  accept_trimmed :
      (t : String) (n : NormalizedRemoteAddress L) → t ≢ "" → Reading t n → of_trimmed L t ≡ ok n
  accept_trimmed t n text (as_url u is web) =
      of_trimmed_url L t u (not_blank L t text) is ∙ (by_scheme L t u).0 web
  accept_trimmed t n text (as_ip e a u refused is made) =
      of_trimmed_bare L t e (not_blank L t text) refused
      ∙ of_bare_ip L t a is
      ∙ with_url_of t (ip a) ("http://" <> (t <> "/")) u made
  accept_trimmed t n text (as_hostname e u refused isnt named made) =
      of_trimmed_bare L t e (not_blank L t text) refused
      ∙ of_bare_hostname L t isnt ((is_valid_hostname_iff t).1 named)
      ∙ with_url_of t (hostname t) ("https://" <> (t <> "/")) u made

  -- An address is accepted, and read as `n`, exactly when without the blanks round it it is not
  -- empty and `n` is its reading: as a URL over HTTP or HTTPS; as an IP address, if the URL parser
  -- refuses it but accepts the URL over HTTP that is made of it; or as a hostname by the grammar,
  -- if both refuse it and the URL over HTTPS that is made of it is accepted.
  pub normalize_source_address_iff :
      (address : String) (n : NormalizedRemoteAddress L)
      → (normalize_source_address L address ≡ ok n)
        ↔ ((trim address ≢ "") × Reading (trim address) n)
  unfolding normalize_source_address
  normalize_source_address_iff address n = (
    read_trimmed (trim address) n,
    λ (text, reading). accept_trimmed (trim address) n text reading,
  )
