-- ===== src/Tests/Idempotency.antt =====
-- A request that is repeated an hour later.
use stellar_kraal_backend.Prelude.{Map, ℕ, ◌+◌, String, ◌≡◌, refl, some, [], arith}
use stellar_kraal_backend.Idempotency.{
  serve_request, StoredResponse, get_stored_response, text_length, replayed, handled,
}
use stellar_kraal_backend.Idempotency.Replays.{serve_request-replays}

-- A handler that counts its runs.
abbrev handler : ℕ → (ℕ × String) × ℕ
handler runs = ((201, "created"), runs + 1)

abbrev key : String
key = "order-0001"

abbrev no_keys : Map StoredResponse
no_keys = []

serve_request-replays_example :
    let (outcome, keys', runs) = serve_request handler 1000 1500 (some key) no_keys 0 in
    (outcome ≡ handled 201 "created")
    × (runs ≡ 1)
    × (serve_request handler 3601500 3601600 (some key) keys' 1
        ≡ (replayed 201 "created", keys', 1))
unfolding get_stored_response text_length
serve_request-replays_example =
    serve_request-replays handler 1000 1500 3601500 3601600 key no_keys 0 1 refl (omega arith) refl
      (omega arith)
