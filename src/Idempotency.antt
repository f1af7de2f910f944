-- ===== src/Idempotency.antt =====
-- src/services/idempotency.service.ts and src/middleware/idempotency.ts: the replay of a stored
-- response to a request that repeats its Idempotency-Key. A JSON body is its text; a day has 24
-- hours; the database fails only as its unique key makes it fail. A handler is the argument
-- `handler`, over any type of states.
pub mod Replays
use stellar_kraal_backend.Prelude.{
  ltb, if◌then◌else◌, append, Map, lookup, remove, assign, ℕ, suc, ◌+◌, ◌*◌, String, Option, none,
  some, [], ◌∷◌, str_eq,
}

pub record StoredResponse : Type 0 where
  pub status_code : ℕ
  pub response : String
  pub expires_at : ℕ

abbrev pub default_ttl_hours : ℕ
default_ttl_hours = 24

abbrev pub hours : ℕ → ℕ
hours h = h * 3600000

abbrev pub unexpired :
    ℕ
    → String
    → Option StoredResponse
    → Map StoredResponse
    → Option (ℕ × String) × Map StoredResponse
unexpired now key none keys = (none, keys)
unexpired now key (some r) keys =
    if ltb r.expires_at now
    then (none, remove key keys)
    else (some (r.status_code, r.response), keys)

unfoldable pub get_stored_response :
    ℕ → String → Map StoredResponse → Option (ℕ × String) × Map StoredResponse
unfolding lookup remove
get_stored_response now key keys = unexpired now key (lookup key keys) keys

-- `cleanupExpiredKeys`
unfoldable pub cleanup_expired_keys : ℕ → Map StoredResponse → Map StoredResponse
cleanup_expired_keys now [] = []
cleanup_expired_keys now ((key, r) ∷ rest) =
    let others = cleanup_expired_keys now rest in
    if ltb r.expires_at now then others else (key, r) ∷ others

-- A new row, or, where the key is taken, a change of its response that keeps its expiry.
abbrev pub stored : ℕ → ℕ → String → ℕ → Option StoredResponse → StoredResponse
stored now status body ttl_hours none = record {
  status_code = status;
  response = body;
  expires_at = now + hours ttl_hours;
}
stored now status body ttl_hours (some r) = record r { status_code = status; response = body }

unfoldable pub store_response :
    ℕ → String → ℕ → String → ℕ → Map StoredResponse → Map StoredResponse
unfolding lookup assign
store_response now key status body ttl_hours keys =
    assign key (stored now status body ttl_hours (lookup key keys)) keys

unfoldable pub text_length : String → ℕ
text_length String.[] = 0
text_length (String.◌∷◌ c s) = suc (text_length s)

abbrev pub processing_key : String → String
processing_key key = append key "_processing"

-- What the client gets: the 400, a stored response, or that of the handler.
pub data Outcome : Type 0 where
  invalid_key : Outcome
  replayed handled : (status : ℕ) → (body : String) → Outcome

-- The marker of a request that is being processed; one that is there is removed first.
abbrev pub mark_processing :
    ℕ → String → Option (ℕ × String) × Map StoredResponse → Map StoredResponse
mark_processing now key (none, keys) =
    store_response now (processing_key key) 202 "{\"status\":\"processing\"}" 1 keys
mark_processing now key (some _, keys) =
    store_response now (processing_key key) 202 "{\"status\":\"processing\"}" 1
      (remove (processing_key key) keys)

-- `res.json` of a request with a key, at the time of the response.
abbrev pub record_response : ℕ → String → ℕ → String → Map StoredResponse → Map StoredResponse
record_response done key status body keys =
    remove (processing_key key) (store_response done key status body default_ttl_hours keys)

module _ {S : Type 0} (handler : S → (ℕ × String) × S) where
  abbrev pub handled_without_key :
      (ℕ × String) × S → Map StoredResponse → Outcome × Map StoredResponse × S
  handled_without_key ((status, body), s') keys = (handled status body, keys, s')

  abbrev pub handled_with_key :
      ℕ → String → (ℕ × String) × S → Map StoredResponse → Outcome × Map StoredResponse × S
  handled_with_key done key ((status, body), s') keys =
      (handled status body, record_response done key status body keys, s')

  abbrev pub replay_or_handle :
      ℕ
      → ℕ
      → String
      → Option (ℕ × String) × Map StoredResponse
      → S
      → Outcome × Map StoredResponse × S
  replay_or_handle now done key (some (status, body), keys) s = (replayed status body, keys, s)
  replay_or_handle now done key (none, keys) s =
      handled_with_key done key (handler s)
        (mark_processing now key (get_stored_response now (processing_key key) keys))

  -- A request that arrives at `now` and whose handler answers at `done`, with no other request in
  -- between.
  unfoldable pub serve_request :
      ℕ → ℕ → Option String → Map StoredResponse → S → Outcome × Map StoredResponse × S
  unfolding get_stored_response store_response text_length append remove
  serve_request now done none keys s = handled_without_key (handler s) keys
  serve_request now done (some key) keys s =
      if str_eq key ""
      then handled_without_key (handler s) keys
      else if ltb (text_length key) 8
      then (invalid_key, keys, s)
      else replay_or_handle now done key (get_stored_response now key keys) s
