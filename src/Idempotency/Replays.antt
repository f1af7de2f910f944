-- ===== src/Idempotency/Replays.antt =====
-- A repeated request.
use stellar_kraal_backend.Prelude.{
  ltb, Bool-cases, Option-cases, append, Map, lookup, remove, lookup-remove_same,
  lookup-remove_other, lookup-assign_same, lookup-assign_other, ℕ, ◌+◌, ◌*◌, ◌≤◌, String, ◌≡◌, refl,
  sym, ap, ◌∙◌, subst, ◌≢◌, inl, inr, Bool, true, false, Option, none, some, arith, str_eq,
}
use stellar_kraal_backend.Idempotency.{
  StoredResponse, get_stored_response, processing_key, default_ttl_hours, stored, store_response,
  text_length, replayed, handled, mark_processing, record_response, serve_request, replay_or_handle,
}

is_empty_text : String → Bool
is_empty_text String.[] = true
is_empty_text (String.◌∷◌ c s) = false

tail_of : String → String
tail_of String.[] = String.[]
tail_of (String.◌∷◌ c s) = s

processing_key-apart : (key : String) → processing_key key ≢ key
unfolding append is_empty_text tail_of
processing_key-apart String.[] h = absurd (differ (ap is_empty_text h))
  where
    differ : false ≡ true → ⊥
    differ e = cc
processing_key-apart (String.◌∷◌ c s) h = processing_key-apart s (ap tail_of h)

present : (x : ℕ × String) → some x ≡ none → ⊥
present x e = cc

-- What is left of a key that has no response to replay: nothing.
no_response-removed :
    (now : ℕ) (key : String) (keys : Map StoredResponse)
    → (get_stored_response now key keys).0 ≡ none
    → lookup key (get_stored_response now key keys).1 ≡ none
unfolding get_stored_response
no_response-removed now key keys h = elim (Option-cases (lookup key keys)) [
  | inl absent ↦ rw absent absent
  | inr (r, found) ↦ elim (Bool-cases (ltb r.expires_at now)) [
    | inl old ↦ rw (found, old) (lookup-remove_same key keys)
    | inr fresh ↦ absurd (present (r.status_code, r.response) (rw (found, fresh) at h))
  ]
]

get_stored_response-other :
    (now : ℕ) (k key : String) (keys : Map StoredResponse)
    → k ≢ key
    → lookup key (get_stored_response now k keys).1 ≡ lookup key keys
unfolding get_stored_response
get_stored_response-other now k key keys ne = elim (Option-cases (lookup k keys)) [
  | inl absent ↦ rw absent refl
  | inr (r, found) ↦ elim (Bool-cases (ltb r.expires_at now)) [
    | inl old ↦ rw (found, old) (lookup-remove_other k key keys ne)
    | inr fresh ↦ rw (found, fresh) refl
  ]
]

mark_processing-other :
    (now : ℕ) (key : String) (o : Option (ℕ × String)) (keys : Map StoredResponse)
    → lookup key (mark_processing now key (o, keys)) ≡ lookup key keys
unfolding store_response
mark_processing-other now key none keys =
    lookup-assign_other (processing_key key) key _ keys (processing_key-apart key)
mark_processing-other now key (some r) keys =
    lookup-assign_other (processing_key key) key _ (remove (processing_key key) keys)
      (processing_key-apart key)
    ∙ lookup-remove_other (processing_key key) key keys (processing_key-apart key)

-- The row that a response leaves where there was none.
record_response-found :
    (done : ℕ) (key : String) (status : ℕ) (body : String) (keys : Map StoredResponse)
    → lookup key keys ≡ none
    → lookup key (record_response done key status body keys)
      ≡ some (stored done status body default_ttl_hours none)
unfolding store_response
record_response-found done key status body keys absent =
    lookup-remove_other (processing_key key) key
      (store_response done key status body default_ttl_hours keys) (processing_key-apart key)
    ∙ lookup-assign_same key (stored done status body default_ttl_hours (lookup key keys)) keys
    ∙ ap (λ o. some (stored done status body default_ttl_hours o)) absent

stored_replays :
    (done later : ℕ) (key : String) (status : ℕ) (body : String) (keys : Map StoredResponse)
    → lookup key keys ≡ some (stored done status body default_ttl_hours none)
    → later ≤ done + 86400000
    → get_stored_response later key keys ≡ (some (status, body), keys)
unfolding get_stored_response
stored_replays done later key status body keys found in_time =
    let fresh : ltb (done + 24 * 3600000) later ≡ false = ground arith in rw found (rw fresh refl)

module _ {S : Type 0} (handler : S → (ℕ × String) × S) where
  serve_request-found :
      (now done : ℕ) (key : String) (keys : Map StoredResponse) (s : S)
      (r : Option (ℕ × String) × Map StoredResponse)
      → str_eq key "" ≡ false
      → 8 ≤ text_length key
      → get_stored_response now key keys ≡ r
      → serve_request handler now done (some key) keys s ≡ replay_or_handle handler now done key r s
  unfolding serve_request
  serve_request-found now done key keys s r full long e =
      let enough : ltb (text_length key) 8 ≡ false = ground arith in
      rw full (rw enough (ap (λ x. replay_or_handle handler now done key x s) e))

none-eta : (x : Option (ℕ × String) × Map StoredResponse) → x.0 ≡ none → x ≡ (none, x.1)
none-eta (o, keys) h = rw h refl

-- A request with a key of at least eight characters that has no stored response is handled, and for
-- a day after it has been answered, a request that repeats the key gets the same status and body,
-- without the handler being run. The requests do not overlap.
pub serve_request-replays :
    {S : Type 0} (handler : S → (ℕ × String) × S) (now done later done' : ℕ) (key : String)
    (keys : Map StoredResponse) (s t : S)
    → str_eq key "" ≡ false
    → 8 ≤ text_length key
    → (get_stored_response now key keys).0 ≡ none
    → later ≤ done + 86400000
    → let ((status, body), s') = handler s in
      let (outcome, keys', s'') = serve_request handler now done (some key) keys s in
      (outcome ≡ handled status body)
      × (s'' ≡ s')
      × (serve_request handler later done' (some key) keys' t ≡ (replayed status body, keys', t))
serve_request-replays handler now done later done' key keys s t full long new in_time =
    let first = get_stored_response now key keys in
    let second = get_stored_response now (processing_key key) first.1 in
    let marked = mark_processing now key second in
    let absent =
      mark_processing-other now key second.0 second.1
      ∙ get_stored_response-other now (processing_key key) key first.1 (processing_key-apart key)
      ∙ no_response-removed now key keys new in
    let ((status, body), s') = handler s in
    let row = record_response-found done key status body marked absent in
    let keys' = record_response done key status body marked in
    let handled_first =
      serve_request-found handler now done key keys s (none, first.1) full long
        (none-eta first new) in
    let replayed_second =
      serve_request-found handler later done' key keys' t (some (status, body), keys') full long
        (stored_replays done later key status body keys' row in_time) in
    subst
      (λ r.
        (r.0 ≡ handled status body)
        × (r.2 ≡ s')
        × (serve_request handler later done' (some key) r.1 t ≡ (replayed status body, r.1, t)))
      (sym handled_first) (refl, refl, replayed_second)
