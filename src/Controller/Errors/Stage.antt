-- ===== src/Controller/Errors/Stage.antt =====
-- The stages under which the failures of the two requests are reported.
use ipmaze.Base.{◌≡◌, ◌⊎◌, inl, inr, refl, Option, err}
use ipmaze.Libs.{Libs}
use ipmaze.World.{World}
use ipmaze.Source.{
  NormalizedRemoteAddress, FetchError, pointer_retrieval, final_retrieval, invalid_json,
  pointer_extraction_no_match, pointer_extraction_empty_capture, pointer_resolved_address,
}
use ipmaze.Source.Resolve.{resolve_final_source, fetch_json}
use ipmaze.Source.Resolve.Laws.{
  IsPointerError, IsFinalError, resolve_final_source-IsPointerError, fetch_json-IsFinalError,
}
use ipmaze.Status.{ReconcileStage}
use ipmaze.Controller.Errors.{fetch_error, stage}

module _ (L : Libs) (W : World L) where
  stage-IsPointerError :
      (e : FetchError L)
      → IsPointerError L W e
      → (stage {L = L} {W = W} (fetch_error e) ≡ ReconcileStage.pointer_retrieval)
        ⊎ (stage {L = L} {W = W} (fetch_error e) ≡ ReconcileStage.pointer_extraction)
  unfolding stage
  stage-IsPointerError (pointer_retrieval _) k = inl refl
  stage-IsPointerError pointer_extraction_no_match k = inr refl
  stage-IsPointerError pointer_extraction_empty_capture k = inr refl
  stage-IsPointerError (pointer_resolved_address _) k = inr refl
  stage-IsPointerError (final_retrieval _) k = absurd k
  stage-IsPointerError (invalid_json _) k = absurd k

  stage-IsFinalError :
      (e : FetchError L)
      → IsFinalError L W e
      → (stage {L = L} {W = W} (fetch_error e) ≡ ReconcileStage.transport)
        ⊎ (stage {L = L} {W = W} (fetch_error e) ≡ ReconcileStage.json_decode)
  unfolding stage
  stage-IsFinalError (final_retrieval _) k = inl refl
  stage-IsFinalError (invalid_json _) k = inr refl
  stage-IsFinalError (pointer_retrieval _) k = absurd k
  stage-IsFinalError pointer_extraction_no_match k = absurd k
  stage-IsFinalError pointer_extraction_empty_capture k = absurd k
  stage-IsFinalError (pointer_resolved_address _) k = absurd k

  -- A failure to find the source by its pointer is reported under `pointer-retrieval` or
  -- `pointer-extraction`, and a failure to fetch the list itself under `transport` or
  -- `json-decode`.
  pub request_stages :
      (a : NormalizedRemoteAddress L) (pointer : Option L.Regex) (s s' : W.State) (e : FetchError L)
      → (resolve_final_source L W a pointer s ≡ (err e, s')
          → (stage {L = L} {W = W} (fetch_error e) ≡ ReconcileStage.pointer_retrieval)
            ⊎ (stage {L = L} {W = W} (fetch_error e) ≡ ReconcileStage.pointer_extraction))
        × (fetch_json L W a s ≡ (err e, s')
            → (stage {L = L} {W = W} (fetch_error e) ≡ ReconcileStage.transport)
              ⊎ (stage {L = L} {W = W} (fetch_error e) ≡ ReconcileStage.json_decode))
  request_stages a pointer s s' e = (
    λ h. stage-IsPointerError e (resolve_final_source-IsPointerError L W a pointer s s' e h),
    λ h. stage-IsFinalError e (fetch_json-IsFinalError L W a s s' e h),
  )
