-- ===== src/Source/Resolve.antt =====
-- source.rs, the requests: `fetch_text`, `fetch_json`, `parse_json_bytes`, `resolve_final_source`.
pub mod Laws
use ipmaze.Base.{
  ℕ, String, true, false, not, Option, none, some, List, Result, ok_or, map_err, map_option,
  keep_if,
}
use ipmaze.Base.Action.{Action, ◌>>=◌, ◌>>◌, pure, lift, convert}
use ipmaze.Libs.{Libs}
use ipmaze.World.{World}
use ipmaze.Text.{trim, is_blank}
use ipmaze.Source.{
  follow_pointer, NormalizedRemoteAddress, ResolvedSource, FetchError, pointer_retrieval,
  final_retrieval, invalid_json, pointer_extraction_no_match, pointer_extraction_empty_capture,
  pointer_resolved_address, normalize_source_address,
}

module _ (L : Libs) (W : World L) where
  open L use {Value, Regex, Captures, captures, capture_get, value_from_slice}
  open W use {State, send, error_for_status, text, bytes}

  unfoldable pub fetch_text : NormalizedRemoteAddress L → Action State String (FetchError L)
  fetch_text address = do
    sent ← convert pointer_retrieval (send address.request_url)
    response ← lift (map_err pointer_retrieval (error_for_status sent))
    convert pointer_retrieval (text response)

  unfoldable pub parse_json_bytes : List ℕ → Result Value (FetchError L)
  parse_json_bytes body = map_err invalid_json (value_from_slice body)

  unfoldable pub fetch_json : NormalizedRemoteAddress L → Action State Value (FetchError L)
  fetch_json address = do
    sent ← convert final_retrieval (send address.request_url)
    response ← lift (map_err final_retrieval (error_for_status sent))
    body ← convert final_retrieval (bytes response)
    lift (parse_json_bytes body)

  unfoldable pub resolve_pointer :
      NormalizedRemoteAddress L → Regex → Action State (ResolvedSource L) (FetchError L)
  resolve_pointer base regex = do body ← fetch_text base; lift (follow_pointer L base regex body)

  unfoldable pub resolve_final_source :
      NormalizedRemoteAddress L → Option Regex → Action State (ResolvedSource L) (FetchError L)
  resolve_final_source base none =
      pure (record { base_address = base; final_address = base; pointer_used = false })
  resolve_final_source base (some regex) = resolve_pointer base regex
