-- ===== src/RateLimit/Windows.antt =====
-- The hits of one key of src/middleware/rateLimiter.ts, apart from those of the others.
use stellar_kraal_backend.Prelude.{
  ltb, leb, if◌then◌else◌, Bool-cases, ℕ, suc, ◌+◌, ◌≤◌, String, ◌≡◌, refl, sym, ap, ◌∙◌, subst,
  inl, inr, true, false, Option, none, some, List, [], ◌∷◌, arith, str_eq, eq_iff,
}
use stellar_kraal_backend.RateLimit.{
  RateLimit, RateLimits, live, counted_hit, taken_back, increment, decrement, reset_key,
}

pub data StoreCall : Type 0 where
  increments decrements resets : String → StoreCall

abbrev pub called : ℕ → ℕ → StoreCall → RateLimits → RateLimits
called window now (increments key) table = (increment window now key table).1
called window now (decrements key) table = decrement key table
called window now (resets key) table = reset_key key table

-- A history of calls, each with its time, the last first.
unfoldable pub after_calls : ℕ → List (ℕ × StoreCall) → RateLimits
unfolding increment decrement reset_key
after_calls window [] = λ k. none
after_calls window ((now, c) ∷ earlier) = called window now c (after_calls window earlier)

-- The row of one key, in a table without the others.
abbrev pub counted_call : ℕ → ℕ → String → StoreCall → Option RateLimit → Option RateLimit
counted_call window now key (increments k) cell =
    if str_eq k key then some (counted_hit window now (live now cell)) else cell
counted_call window now key (decrements k) cell = if str_eq k key then taken_back cell else cell
counted_call window now key (resets k) cell = if str_eq k key then none else cell

unfoldable lone_row : ℕ → String → List (ℕ × StoreCall) → Option RateLimit
lone_row window key [] = none
lone_row window key ((now, c) ∷ earlier) =
    counted_call window now key c (lone_row window key earlier)

-- No call is later than a time, and each call no earlier than the ones before it.
abbrev pub InOrder : ℕ → List (ℕ × StoreCall) → Type 0
InOrder now [] = Unit
InOrder now ((t, c) ∷ earlier) = (t ≤ now) × InOrder t earlier

live-live : (t now : ℕ) (o : Option RateLimit) → t ≤ now → live now (live t o) ≡ live now o
live-live t now none h = refl
live-live t now (some r) h = ground arith

live-taken_back :
    (now : ℕ) (o : Option RateLimit) → live now (taken_back (live now o)) ≡ live now (taken_back o)
live-taken_back now none = refl
live-taken_back now (some r) = ground arith

-- At a time, the row of a key and the counter agree.
abbrev pub Matches : ℕ → Option RateLimit → Option RateLimit → Type 0
Matches now o cell = live now o ≡ live now cell

Matches-later :
    (t now : ℕ) (o cell : Option RateLimit) → t ≤ now → Matches t o cell → Matches now o cell
Matches-later t now o cell le h =
    sym (live-live t now o le) ∙ ap (live now) h ∙ live-live t now cell le

called-Matches :
    (window now : ℕ) (key : String) (c : StoreCall) (table : RateLimits) (cell : Option RateLimit)
    → Matches now (table key) cell
    → Matches now (called window now c table key) (counted_call window now key c cell)
unfolding increment decrement reset_key
called-Matches window now key (increments k) table cell h = elim (Bool-cases (str_eq k key)) [
  | inl e ↦ rw e (
      ap (λ o. live now (some (counted_hit window now o)))
        (ap (λ x. live now (table x)) ((eq_iff k key).0 e) ∙ h))
  | inr e ↦ rw e (live-live now now (table key) (omega arith) ∙ h)
]
called-Matches window now key (decrements k) table cell h = elim (Bool-cases (str_eq k key)) [
  | inl e ↦ rw e (
      sym (live-taken_back now (table k))
      ∙ ap (λ o. live now (taken_back o)) (ap (λ x. live now (table x)) ((eq_iff k key).0 e) ∙ h)
      ∙ live-taken_back now cell)
  | inr e ↦ rw e h
]
called-Matches window now key (resets k) table cell h = ground arith

after_calls-Matches :
    (window now : ℕ) (key : String) (calls : List (ℕ × StoreCall))
    → InOrder now calls
    → Matches now (after_calls window calls key) (lone_row window key calls)
unfolding after_calls lone_row
after_calls-Matches window now key [] h = refl
after_calls-Matches window now key ((t, c) ∷ earlier) (le, h) = Matches-later t now _ _ le (
    called-Matches window t key c (after_calls window earlier) (lone_row window key earlier)
      (after_calls-Matches window t key earlier h))

increment-lone_row :
    (window now : ℕ) (key : String) (calls : List (ℕ × StoreCall))
    → InOrder now calls
    → (increment window now key (after_calls window calls)).0
      ≡ counted_hit window now (live now (lone_row window key calls))
unfolding increment
increment-lone_row window now key calls h =
    ap (counted_hit window now) (after_calls-Matches window now key calls h)

-- The counter of one key: closed, or open with what was counted up and down until a time.
pub data Counter : Type 0 where
  closed : Counter
  open_until : (deadline ups downs : ℕ) → Counter

-- A hit counts on until the deadline, that time included, and opens a new window after it.
abbrev pub hit : ℕ → ℕ → Counter → Counter
hit window now closed = open_until (now + window) 1 0
hit window now (open_until deadline ups downs) =
    if leb now deadline then open_until deadline (ups + 1) downs else open_until (now + window) 1 0

abbrev pub take_back : Counter → Counter
take_back closed = closed
take_back (open_until deadline ups downs) = open_until deadline ups (downs + 1)

-- The calls of other keys do nothing.
abbrev pub counter_call : ℕ → ℕ → String → StoreCall → Counter → Counter
counter_call window now key (increments k) n = if str_eq k key then hit window now n else n
counter_call window now key (decrements k) n = if str_eq k key then take_back n else n
counter_call window now key (resets k) n = if str_eq k key then closed else n

unfoldable pub counter : ℕ → String → List (ℕ × StoreCall) → Counter
counter window key [] = closed
counter window key ((now, c) ∷ earlier) = counter_call window now key c (counter window key earlier)

-- A row says what a counter does.
abbrev pub Tells : Option RateLimit → Counter → Type 0
Tells row closed = row ≡ none
Tells row (open_until deadline ups downs) =
    row ≡ some (record { ups = ups; downs = downs; reset_time = deadline })

hit-Tells :
    (window now : ℕ) (row : Option RateLimit) (n : Counter)
    → Tells row n
    → Tells (some (counted_hit window now (live now row))) (hit window now n)
hit-Tells window now row closed h = rw h refl
hit-Tells window now row (open_until deadline ups downs) h = elim (Bool-cases (leb now deadline)) [
  | inl e ↦
      let on : ltb deadline now ≡ false = ground arith in
      let one : suc ups ≡ ups + 1 = omega arith in rw e (rw h (rw on (rw one refl)))
  | inr e ↦ let over : ltb deadline now ≡ true = ground arith in rw e (rw h (rw over refl))
]

take_back-Tells :
    (row : Option RateLimit) (n : Counter) → Tells row n → Tells (taken_back row) (take_back n)
take_back-Tells row closed h = rw h refl
take_back-Tells row (open_until deadline ups downs) h =
    let one : suc downs ≡ downs + 1 = omega arith in rw h (rw one refl)

call-Tells :
    (window now : ℕ) (key : String) (c : StoreCall) (row : Option RateLimit) (n : Counter)
    → Tells row n
    → Tells (counted_call window now key c row) (counter_call window now key c n)
call-Tells window now key (increments k) row n h = elim (Bool-cases (str_eq k key)) [
  | inl e ↦ rw e (hit-Tells window now row n h)
  | inr e ↦ rw e h
]
call-Tells window now key (decrements k) row n h = elim (Bool-cases (str_eq k key)) [
  | inl e ↦ rw e (take_back-Tells row n h)
  | inr e ↦ rw e h
]
call-Tells window now key (resets k) row n h = elim (Bool-cases (str_eq k key)) [
  | inl e ↦ rw e refl
  | inr e ↦ rw e h
]

lone_row-Tells :
    (window : ℕ) (key : String) (calls : List (ℕ × StoreCall))
    → Tells (lone_row window key calls) (counter window key calls)
unfolding lone_row counter
lone_row-Tells window key [] = refl
lone_row-Tells window key ((now, c) ∷ earlier) =
    call-Tells window now key c _ _ (lone_row-Tells window key earlier)

-- The hits that a request is told are those of a counter for its key alone: whatever increments,
-- decrements and resets came before, of any keys and in the order of their times, the row that
-- `increment` answers is that of the counter. It opens with 1 hit until the end of a window of the
-- given length, counts on up to and at that time and takes back what is decremented, opens again
-- with 1 after it, is closed by a reset, and does not notice the calls of other keys, which delete
-- the rows whose time is over.
pub increment-counter :
    (window now : ℕ) (key : String) (calls : List (ℕ × StoreCall))
    → InOrder now calls
    → Tells
        (some (increment window now key (after_calls window calls)).0)
        (hit window now (counter window key calls))
increment-counter window now key calls h =
    subst (λ r. Tells (some r) (hit window now (counter window key calls)))
      (sym (increment-lone_row window now key calls h))
      (hit-Tells window now _ _ (lone_row-Tells window key calls))
