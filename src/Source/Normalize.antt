-- ===== src/Source/Normalize.antt =====
-- What `normalize_source_address` accepts, which URL it requests, and what it refuses.
pub mod Accepted
use ipmaze.Base.{
  String, true, false, ◌≡◌, ◌≢◌, ◌⊎◌, refl, sym, ◌∙◌, inl, inr, none, some, arith, Bool-cases,
  Option-cases, ◌<>◌, string_eq, ==_iff, ok, err, Result-cases,
}
use mathlib.Core.Path.{subst}
use ipmaze.Libs.{Libs}
use ipmaze.Text.{trim, is_blank}
use ipmaze.Text.Trim.{trim-trim}
use ipmaze.Source.{
  RemoteAddress, url, hostname, ip, NormalizedRemoteAddress, empty, unsupported_scheme,
  invalid_address, with_url, of_url, of_bare, of_trimmed, normalize_source_address,
}
use ipmaze.Source.Hostname.{is_valid_hostname}
use ipmaze.Source.Hostname.Grammar.{IsHostname, is_valid_hostname_iff, IsHostname-no_slash}

module _ (L : Libs) where
  open L use {Url, UrlError, IpAddr, url_parse, url_scheme, ip_from_str}

  -- Blanks round an address are of no account.
  pub normalize_source_address-trim :
      (address : String)
      → normalize_source_address L (trim address) ≡ normalize_source_address L address
  unfolding normalize_source_address
  normalize_source_address-trim address = rw trim-trim

  -- What the url crate documents of the scheme of an absolute URL.
  pub record KeepsScheme : Type 0 where
    pub http : (t : String) (u : Url) → url_parse ("http://" <> t) ≡ ok u → url_scheme u ≡ "http"
    pub https : (t : String) (u : Url) → url_parse ("https://" <> t) ≡ ok u → url_scheme u ≡ "https"

  -- A URL over HTTP or HTTPS.
  abbrev pub IsWeb : Url → Type 0
  IsWeb u = (url_scheme u ≡ "http") ⊎ (url_scheme u ≡ "https")

  of_url-IsWeb :
      (t : String) (u : Url) (n : NormalizedRemoteAddress L)
      → of_url L t u ≡ ok n
      → (n.original ≡ t) × IsWeb n.request_url
  unfolding of_url
  of_url-IsWeb t u n h = ground (arith, ==_iff (url_scheme u) "http", ==_iff (url_scheme u) "https")

  with_url-eq-ok :
      (t : String) (a : RemoteAddress L) (text : String) (n : NormalizedRemoteAddress L)
      → with_url L t a text ≡ ok n
      → (n.original ≡ t) × (url_parse text ≡ ok n.request_url)
  unfolding with_url
  with_url-eq-ok t a text n h = ground arith

  -- The branches of `of_bare` and `of_trimmed`, as equations.
  pub of_bare_ip :
      (t : String) (a : IpAddr)
      → ip_from_str t ≡ some a
      → of_bare L t ≡ with_url L t (ip a) ("http://" <> (t <> "/"))
  unfolding of_bare
  of_bare_ip t a is = rw (is, of_bare)

  pub of_bare_hostname :
      (t : String)
      → ip_from_str t ≡ none
      → is_valid_hostname t ≡ true
      → of_bare L t ≡ with_url L t (hostname t) ("https://" <> (t <> "/"))
  unfolding of_bare
  of_bare_hostname t isnt named = rw (isnt, of_bare) (rw named)

  pub of_bare_invalid :
      (t : String)
      → ip_from_str t ≡ none
      → is_valid_hostname t ≡ false
      → of_bare L t ≡ err (invalid_address t)
  unfolding of_bare
  of_bare_invalid t isnt unnamed = rw (isnt, of_bare) (rw unnamed)

  pub not_blank : (s : String) → s ≢ "" → is_blank s ≡ false
  not_blank String.[] ne = absurd (ne refl)
  not_blank (String.◌∷◌ c s) ne = refl

  pub of_trimmed_blank : (t : String) → is_blank t ≡ true → of_trimmed L t ≡ err empty
  unfolding of_trimmed
  of_trimmed_blank t blank = rw blank

  pub of_trimmed_url :
      (t : String) (u : Url)
      → is_blank t ≡ false
      → url_parse t ≡ ok u
      → of_trimmed L t ≡ of_url L t u
  unfolding of_trimmed
  of_trimmed_url t u text is = rw (is, of_trimmed) (rw text)

  pub of_trimmed_bare :
      (t : String) (e : UrlError)
      → is_blank t ≡ false
      → url_parse t ≡ err e
      → of_trimmed L t ≡ of_bare L t
  unfolding of_trimmed
  of_trimmed_bare t e text isnt = rw (isnt, of_trimmed) (rw text)

  of_bare-IsWeb :
      KeepsScheme
      → (t : String) (n : NormalizedRemoteAddress L) → of_bare L t ≡ ok n
      → (n.original ≡ t) × IsWeb n.request_url
  of_bare-IsWeb k t n h = elim (Option-cases (ip_from_str t)) [
    | inr (a, is) ↦
        let (o, p) =
          with_url-eq-ok t (ip a) ("http://" <> (t <> "/")) n (sym (of_bare_ip t a is) ∙ h) in
        (o, inl (k.http (t <> "/") n.request_url p))
    | inl isnt ↦ elim (Bool-cases (is_valid_hostname t)) [
      | inl named ↦
          let (o, p) =
            with_url-eq-ok t (hostname t) ("https://" <> (t <> "/")) n
              (sym (of_bare_hostname t isnt named) ∙ h) in
          (o, inr (k.https (t <> "/") n.request_url p))
      | inr unnamed ↦ cc (of_bare_invalid t isnt unnamed, h)
    ]
  ]

  of_trimmed-IsWeb :
      KeepsScheme
      → (t : String) (n : NormalizedRemoteAddress L) → of_trimmed L t ≡ ok n
      → (n.original ≡ t) × IsWeb n.request_url
  of_trimmed-IsWeb k t n h = elim (Bool-cases (is_blank t)) [
    | inl blank ↦ cc (of_trimmed_blank t blank, h)
    | inr text ↦ elim (Result-cases (url_parse t)) [
      | inl (u, is) ↦ of_url-IsWeb t u n (sym (of_trimmed_url t u text is) ∙ h)
      | inr (e, isnt) ↦ of_bare-IsWeb k t n (sym (of_trimmed_bare t e text isnt) ∙ h)
    ]
  ]

  -- Every accepted address is requested over HTTP or HTTPS, and is recorded without the blanks
  -- round it, given that the URL parser keeps the scheme that it is given.
  pub normalize_source_address-IsWeb :
      KeepsScheme
      → (address : String) (n : NormalizedRemoteAddress L)
      → normalize_source_address L address ≡ ok n
      → (n.original ≡ trim address) × IsWeb n.request_url
  unfolding normalize_source_address
  normalize_source_address-IsWeb k address n h = of_trimmed-IsWeb k (trim address) n h

  pub by_scheme :
      (t : String) (u : Url)
      → (IsWeb u
          → of_url L t u ≡ ok (record { original = t; remote_address = url u; request_url = u }))
        × (¬ IsWeb u → of_url L t u ≡ err (unsupported_scheme (url_scheme u)))
  unfolding of_url
  by_scheme t u = (
    λ web. ground (arith, ==_iff (url_scheme u) "http", ==_iff (url_scheme u) "https"),
    λ other. ground (arith, ==_iff (url_scheme u) "http", ==_iff (url_scheme u) "https"),
  )

  -- An address that is a URL is requested as it stands over HTTP and HTTPS, and is refused with
  -- its scheme over any other.
  pub normalize_source_address_url :
      (address : String) (u : Url)
      → trim address ≢ ""
      → url_parse (trim address) ≡ ok u
      → (IsWeb u
          → normalize_source_address L address
            ≡ ok (record { original = trim address; remote_address = url u; request_url = u }))
        × (¬ IsWeb u → normalize_source_address L address ≡ err (unsupported_scheme (url_scheme u)))
  unfolding normalize_source_address
  normalize_source_address_url address u text is =
      rw (of_trimmed_url (trim address) u (not_blank (trim address) text) is)
        (by_scheme (trim address) u)

  unnamed_test : (t : String) → ¬ IsHostname t → is_valid_hostname t ≡ false
  unnamed_test t no_name = elim (Bool-cases (is_valid_hostname t)) [
    | inl named ↦ absurd (no_name ((is_valid_hostname_iff t).0 named))
    | inr unnamed ↦ unnamed
  ]

  -- An address that the URL parser refuses is requested over HTTP if it is an IP address, else over
  -- HTTPS if it is a hostname by the grammar; the parser's refusal of the URL so made is
  -- passed on. Anything else is refused as an invalid address.
  pub normalize_source_address_bare :
      (address : String) {e : UrlError}
      → trim address ≢ ""
      → url_parse (trim address) ≡ err e
      → ((a : IpAddr)
          → ip_from_str (trim address) ≡ some a
          → normalize_source_address L address
            ≡ with_url L (trim address) (ip a) ("http://" <> (trim address <> "/")))
        × (ip_from_str (trim address) ≡ none
            → IsHostname (trim address)
            → normalize_source_address L address
              ≡ with_url L
                  (trim address)
                  (hostname (trim address))
                  ("https://" <> (trim address <> "/")))
        × (ip_from_str (trim address) ≡ none
            → ¬ IsHostname (trim address)
            → normalize_source_address L address ≡ err (invalid_address (trim address)))
  unfolding normalize_source_address
  normalize_source_address_bare address {e} text refused =
      rw (of_trimmed_bare (trim address) e (not_blank (trim address) text) refused) (
        λ a is. of_bare_ip (trim address) a is,
        λ isnt named.
            of_bare_hostname (trim address) isnt ((is_valid_hostname_iff (trim address)).1 named),
        λ isnt unnamed. of_bare_invalid (trim address) isnt (unnamed_test (trim address) unnamed),
      )

  -- An address with a path but no scheme, such as a host followed by a file, is refused as an
  -- invalid address if the URL parser and the IP parser refuse it.
  pub normalize_source_address_path :
      (address a b : String) {e : UrlError}
      → trim address ≡ a <> ("/" <> b)
      → trim address ≢ ""
      → url_parse (trim address) ≡ err e
      → ip_from_str (trim address) ≡ none
      → normalize_source_address L address ≡ err (invalid_address (trim address))
  normalize_source_address_path address a b slash text refused isnt =
      (normalize_source_address_bare address text refused).2 isnt
        (λ named. IsHostname-no_slash a b (subst IsHostname slash named))
