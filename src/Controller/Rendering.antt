-- ===== src/Controller/Rendering.antt =====
-- What a successful `prepare` has computed.
use ipmaze.Base.{
  sym, String, false, ◌≡◌, refl, ap, ◌∙◌, List, ok, inl, inr, Result-cases, is_some, arith,
}
use ipmaze.Base.Action.{◌>>=◌}
use ipmaze.Api.{CidrPolicy}
use ipmaze.Networking.{NetworkPolicy}
use ipmaze.Libs.{Libs}
use ipmaze.World.{World}
use ipmaze.Source.{ResolvedSource}
use ipmaze.Source.Resolve.{fetch_json, resolve_final_source}
use ipmaze.Extract.{NormalizedCidr, compile_query, extract_cidrs}
use ipmaze.Extract.Order.{renderings}
use ipmaze.Validation.{ValidatedPolicy, validate_policy}
use ipmaze.NetPol.{build_managed_network_policy}
use ipmaze.Controller.{render_payload, prepare, settle, reconcile}

module _ (L : Libs) (W : World L) where
  open L use {OwnerReference, Value, Expression}
  open W use {State, namespace}

  -- What a run from a state has computed up to the rendered policy.
  pub record IsRendered (policy : CidrPolicy OwnerReference) (s : State)
      (cidrs : List NormalizedCidr) (np : NetworkPolicy OwnerReference) : Type 0 where
    pub validated : ValidatedPolicy L
    pub source : ResolvedSource L
    pub payload : Value
    pub query : Expression
    pub validates : validate_policy L policy ≡ ok validated
    pub resolves :
        (resolve_final_source L W validated.source_address validated.pointer_regex s).0 ≡ ok source
    pub fetches :
        (fetch_json L W source.final_address
          ((resolve_final_source L W validated.source_address validated.pointer_regex s).1)).0
        ≡ ok payload
    pub compiles : compile_query L policy.spec.source.jmes_path ≡ ok query
    pub extracts : extract_cidrs L query payload ≡ ok cidrs
    pub builds : build_managed_network_policy L W policy cidrs ≡ ok np

  -- The parts of a payload that was rendered.
  render_payload-eq-ok :
      (policy : CidrPolicy OwnerReference) (payload : Value)
      (made : NetworkPolicy OwnerReference × List String)
      → render_payload L W policy payload ≡ ok made
      → (query : Expression) × (cidrs : List NormalizedCidr) × (compile_query L
            policy.spec.source.jmes_path
          ≡ ok query)
        × (extract_cidrs L query payload ≡ ok cidrs)
        × (build_managed_network_policy L W policy cidrs ≡ ok made.0)
        × (made.1 ≡ renderings cidrs)
  unfolding render_payload
  render_payload-eq-ok policy payload made h =
      elim (Result-cases (compile_query L policy.spec.source.jmes_path)) [
        | inl (query, a) ↦ elim (Result-cases (extract_cidrs L query payload)) [
          | inl (cidrs, b) ↦ elim (Result-cases (build_managed_network_policy L W policy cidrs)) [
            | inl (np, c) ↦
                let same : np ≡ made.0 = ground arith in
                (query, cidrs, a, b, c ∙ ap ok same, ground arith)
            | inr (e, c) ↦ absurd (ground arith)
          ]
          | inr (e, b) ↦ absurd (ground arith)
        ]
        | inr (e, a) ↦ absurd (ground arith)
      ]

  pub prepare-IsRendered :
      (policy : CidrPolicy OwnerReference) (s : State) (v : ValidatedPolicy L)
      (np : NetworkPolicy OwnerReference) (observed : List String) (n : String)
      → (prepare L W policy s).0 ≡ ok (v, np, observed, n)
      → (cidrs : List NormalizedCidr) × IsRendered policy s cidrs np × (observed ≡ renderings cidrs)
  unfolding prepare
  prepare-IsRendered policy s v np observed n h = elim (Result-cases (validate_policy L policy)) [
    | inr (e, a) ↦ absurd (ground arith)
    | inl (w, a) ↦
        let found = resolve_final_source L W w.source_address w.pointer_regex s in
        elim (Result-cases (found.0)) [
          | inr (e, b) ↦ absurd (ground arith)
          | inl (source, b) ↦
              elim (Result-cases ((fetch_json L W source.final_address (found.1)).0)) [
                | inr (e, c) ↦ absurd (ground arith)
                | inl (payload, c) ↦ elim (Result-cases (render_payload L W policy payload)) [
                  | inr (e, d) ↦ absurd (ground arith)
                  | inl (made, d) ↦
                      let (query, cidrs, compiles, extracts, builds, seen) =
                        render_payload-eq-ok policy payload made d in
                      let same : made.0 ≡ np = ground arith in
                      let listed : made.1 ≡ observed = ground arith in
                      (
                        cidrs,
                        record {
                          validated = w;
                          source = source;
                          payload = payload;
                          query = query;
                          validates = a;
                          resolves = b;
                          fetches = c;
                          compiles = compiles;
                          extracts = extracts;
                          builds = builds ∙ ap ok same;
                        },
                        sym listed ∙ seen,
                      )
                ]
              ]
        ]
  ]

  -- A CIDRPolicy that is not being deleted is prepared and then settled.
  pub reconcile_update :
      (policy : CidrPolicy OwnerReference) (s : State)
      → is_some policy.metadata.deletion_timestamp ≡ false
      → reconcile L W policy s ≡ (prepare L W policy >>= settle L W policy) s
  unfolding reconcile
  reconcile_update policy s staying = rw staying refl
