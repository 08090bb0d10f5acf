-- ===== src/Api/Replies.antt =====
-- How the handlers answer: `writeJSON`, `writeOneTimeSecret`, `writeError` and `decodeJSON` of
-- internal/api/server.go.
use barq_control_plane.Base.{
  ℕ, String, ◌<>◌, true, false, List, [], ◌∷◌, ◌++◌, Error, Code, coded, plain, Result, ok, err,
  invalid_argument, not_found, conflict, precondition_failed, unauthorized, forbidden, unavailable,
  internal, resource_exceeded,
}
use barq_control_plane.Control.Store.{Store}
use barq_control_plane.SyncRules.Types.{World}
use barq_control_plane.Api.Types.{
  Decoded, undecodable, decoded, Answer, error_answer, message, json, no_content, Response,
}

abbrev pub route_error : Error
route_error = coded not_found "route not found"

-- The error that is written: any that has no code becomes an internal one.
abbrev pub api_error : Error → Error
api_error (coded c m) = coded c m
api_error (plain m) = coded internal m

unfoldable pub status_of : Code → ℕ
status_of invalid_argument = 400
status_of unauthorized = 401
status_of forbidden = 403
status_of not_found = 404
status_of conflict = 409
status_of precondition_failed = 412
status_of resource_exceeded = 429
status_of unavailable = 503
status_of internal = 500

abbrev pub error_status : Error → ℕ
error_status (coded c m) = status_of c
error_status (plain m) = status_of internal

unfoldable pub decode_json : {T : Type 0} → (String → Decoded T) → String → Result T
decode_json decode body = elim (decode body) [
  | undecodable m ↦ err (coded invalid_argument ("invalid JSON: " <> m))
  | decoded value true ↦ ok value
  | decoded value false ↦ err (coded invalid_argument "request body must contain one JSON value")
]

module _ {V : Type 0} where
  -- writeJSON, after these headers
  abbrev pub write_with : List (String × String) → ℕ → Answer V → Response V
  write_with headers status answer = record {
    status = status;
    headers = headers ++ ("Content-Type", "application/json") ∷ [];
    payload = json answer;
  }

  abbrev pub write_json : ℕ → Answer V → Response V
  write_json status answer = write_with [] status answer

  abbrev pub write_one_time_secret : ℕ → Answer V → Response V
  write_one_time_secret status answer =
      write_with (("Cache-Control", "no-store") ∷ ("Pragma", "no-cache") ∷ []) status answer

  unfoldable pub write_error : Error → Response V
  unfolding status_of
  write_error e = write_json (error_status e) (error_answer (api_error e))

  abbrev pub write_no_content : Response V
  write_no_content = record { status = 204; headers = []; payload = no_content }

  abbrev pub not_allowed : String → Response V
  not_allowed methods =
      write_with (("Allow", methods) ∷ []) 405
        (message (("code", "method_not_allowed") ∷ ("message", "method not allowed") ∷ []))

module _ {V C : Type 0} where
  -- `if err != nil { writeError(w, err); return }`
  abbrev pub attempt :
      {A : Type 0} → Result A → World V C → (A → Response V × World V C) → Response V × World V C
  attempt (err e) w go = (write_error e, w)
  attempt (ok a) w go = go a

  -- The answer to an operation on the control store.
  abbrev pub after_store :
      {A : Type 0} → (A → Response V) → World V C → Result A × Store V → Response V × World V C
  after_store reply w (err e, s) = (write_error e, record w { store = s })
  after_store reply w (ok a, s) = (reply a, record w { store = s })

  -- The answer to a call of the data plane.
  abbrev pub after_core :
      {A : Type 0} → (A → Response V) → World V C → Result A × C → Response V × World V C
  after_core reply w (err e, c) = (write_error e, record w { core = c })
  after_core reply w (ok a, c) = (reply a, record w { core = c })

  -- The answer to an operation on both.
  abbrev pub after_world :
      {A : Type 0} → (A → Response V) → Result A × World V C → Response V × World V C
  after_world reply (err e, w) = (write_error e, w)
  after_world reply (ok a, w) = (reply a, w)
