-- ===== src/RateLimit.antt =====
-- src/middleware/rateLimiter.ts: the store of hits in the database, and the keys and the limits of
-- the three limiters. The table of `rateLimit` is a function from its unique key. A number of hits
-- is one of increments and one of decrements, since the code does not stop at 0. The middleware of
-- express-rate-limit, which calls the store, and the Redis store are not modelled.
pub mod Windows
use stellar_kraal_backend.Prelude.{
  ltb, if◌then◌else◌, append, ℕ, suc, ◌+◌, String, Bool, Option, none, some, str_eq,
}

pub record RateLimit : Type 0 where
  pub ups : ℕ
  pub downs : ℕ
  pub reset_time : ℕ

abbrev pub RateLimits : Type 0
RateLimits = String → Option RateLimit

abbrev pub unexpired_row : ℕ → RateLimit → Option RateLimit
unexpired_row now r = if ltb r.reset_time now then none else some r

-- A row, unless its time is over.
abbrev pub live : ℕ → Option RateLimit → Option RateLimit
live now none = none
live now (some r) = unexpired_row now r

abbrev pub set_row : String → Option RateLimit → RateLimits → RateLimits
set_row key row table = λ k. if str_eq key k then row else table k

-- `deleteMany` of the rows whose time is over.
abbrev pub purge : ℕ → RateLimits → RateLimits
purge now table = λ k. live now (table k)

abbrev pub counted_hit : ℕ → ℕ → Option RateLimit → RateLimit
counted_hit window now none = record { ups = 1; downs = 0; reset_time = now + window }
counted_hit window now (some r) = record r { ups = suc r.ups }

-- The row that the answer is read from, and the table.
unfoldable pub increment : ℕ → ℕ → String → RateLimits → RateLimit × RateLimits
increment window now key table =
    let row = counted_hit window now (live now (table key)) in
    (row, set_row key (some row) (purge now table))

abbrev pub taken_back : Option RateLimit → Option RateLimit
taken_back none = none
taken_back (some r) = some (record r { downs = suc r.downs })

unfoldable pub decrement : String → RateLimits → RateLimits
decrement key table = set_row key (taken_back (table key)) table

unfoldable pub reset_key : String → RateLimits → RateLimits
reset_key key table = set_row key none table

-- The identifier of the user that an earlier handler attached, where it has one.
unfoldable pub user_or_ip_key : Option String → String → String
unfolding append
user_or_ip_key (some id) ip = append "user:" id
user_or_ip_key none ip = append "ip:" ip

unfoldable pub auth_key : String → String
unfolding append
auth_key ip = append "auth:" ip

unfoldable pub expensive_key : Option String → String → String
unfolding append user_or_ip_key
expensive_key user ip = append "expensive:" (user_or_ip_key user ip)

-- The maximum of the global limiter.
abbrev pub global_max : ℕ → ℕ → Bool → ℕ
global_max user_max ip_max authenticated = if authenticated then user_max else ip_max
