-- ===== src/Indexer/Cursor.antt =====
-- The ledger cursor of `pollEvents` in src/services/soroban.service.ts.
use stellar_kraal_backend.Prelude.{All, All-imp, ◌≤◌, ◌<◌, List, [], ◌∷◌, arith}
use stellar_kraal_backend.Number.{Arith}
use stellar_kraal_backend.Database.{Environment}
use stellar_kraal_backend.Indexer.{SorobanEvent, Indexer, poll_events, poll_one}

module _ {A : Type 0} ⦃n : Arith A⦄ where
  cursor-le :
      (events : List (Environment × SorobanEvent A)) (s : Indexer A)
      → s.current_start_ledger ≤ (poll_events events s).current_start_ledger
  unfolding poll_events
  cursor-le [] s = omega arith
  cursor-le ((env, event) ∷ rest) s = omega (arith, cursor-le rest (poll_one env event s))

  cursor-past :
      (events : List (Environment × SorobanEvent A)) (s : Indexer A)
      → All (λ e. e.1.ledger < (poll_events events s).current_start_ledger) events
  unfolding poll_events
  cursor-past [] s = tt
  cursor-past ((env, event) ∷ rest) s = (
    omega (arith, cursor-le rest (poll_one env event s)),
    cursor-past rest (poll_one env event s),
  )

  -- The cursor never falls, and every event of the next response, which the RPC server cuts at the
  -- cursor, is of a later ledger than every event of this one. So no event is processed twice, and
  -- events of the last ledger that the response's limit has cut off are never fetched.
  pub poll_events-cursor :
      (events next : List (Environment × SorobanEvent A)) (s : Indexer A)
      → All (λ e. (poll_events events s).current_start_ledger ≤ e.1.ledger) next
      → (s.current_start_ledger ≤ (poll_events events s).current_start_ledger)
        × All (λ e. All (λ f. e.1.ledger < f.1.ledger) next) events
  poll_events-cursor events next s h = (
    cursor-le events s,
    All-imp (λ e past. All-imp (λ f ahead. omega arith) next h) events (cursor-past events s),
  )
