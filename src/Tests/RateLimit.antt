-- ===== src/Tests/RateLimit.antt =====
-- Two keys, of which one starts a new window.
use stellar_kraal_backend.Prelude.{ℕ, ◌≡◌, refl, some, List, [], ◌∷◌, arith}
use stellar_kraal_backend.RateLimit.{increment, decrement}
use stellar_kraal_backend.RateLimit.Windows.{
  StoreCall, Tells, hit, open_until, increments, decrements, after_calls, counter,
  increment-counter,
}

run : Unit {0}
unfolding increment decrement after_calls counter
run = tt

abbrev calls : List (ℕ × StoreCall)
calls =
    (70, increments "ip:2")
    ∷ (50, increments "ip:1")
    ∷ (40, decrements "ip:1")
    ∷ (0, increments "ip:1")
    ∷ []

increment-counter_example :
    Tells
      (some (increment 60 100 "ip:1" (after_calls 60 calls)).0)
      (hit 60 100 (counter 60 "ip:1" calls))
increment-counter_example =
    increment-counter 60 100 "ip:1" calls
      (omega arith, (omega arith, (omega arith, (omega arith, tt))))

-- A decrement that arrives after the window of its own hit takes one off the next window.
late_test :
    (increment 60 101 "ip:1" (
      after_calls 60
        ((100, decrements "ip:1") ∷ (90, increments "ip:1") ∷ (0, increments "ip:1") ∷ []))).0
    ≡ record { ups = 2; downs = 1; reset_time = 150 }
unfolding run
late_test = refl

counter_test :
    hit 60 100 (counter 60 "ip:1" ((60, increments "ip:1") ∷ (0, increments "ip:1") ∷ []))
    ≡ open_until 160 1 0
unfolding run
counter_test = refl
