-- ===== src/Monitoring/Cooldown.antt =====
-- What the deduplication of src/monitoring/alerting/dedup.ts lets through.
use stellar_kraal_backend.Prelude.{
  Bool-cases, All, All-imp, Map, lookup, assign, lookup-assign_same, lookup-assign_other, ℕ, ◌+◌,
  ◌≤◌, ◌<◌, String, ◌≡◌, refl, sym, ◌∙◌, subst, ◌≢◌, ◌⊎◌, inl, inr, true, false, Option, none, some,
  List, [], ◌∷◌, arith, str_eq, eq_iff,
}
use stellar_kraal_backend.Monitoring.{Anomaly}
use stellar_kraal_backend.Monitoring.Alerts.{dispatch, should_alert, cooling}

-- Alerts with one key are at least the cooldown apart.
abbrev pub Spaced : ℕ → List (ℕ × Anomaly) → Type 0
Spaced cooldown [] = Unit
Spaced cooldown ((t, a) ∷ rest) =
    All (λ later. later.1.dedup_key ≡ a.dedup_key → t + cooldown ≤ later.0) rest
    × Spaced cooldown rest

-- An alert with the key, at a time.
abbrev pub Sent : String → ℕ → List (ℕ × Anomaly) → Type 0
Sent key t [] = ⊥
Sent key t ((t', a) ∷ rest) = ((a.dedup_key ≡ key) × (t' ≡ t)) ⊎ Sent key t rest

-- Alerts with the key, if any, come the cooldown after the time or later.
abbrev pub NotWithin : ℕ → String → ℕ → List (ℕ × Anomaly) → Type 0
NotWithin cooldown key t = All (λ later. later.1.dedup_key ≡ key → t + cooldown ≤ later.0)

NotWithin-earlier :
    (cooldown : ℕ) (key : String) (t now : ℕ) (xs : List (ℕ × Anomaly))
    → t + cooldown ≤ now
    → NotWithin cooldown key now xs
    → NotWithin cooldown key t xs
NotWithin-earlier cooldown key t now xs bound h =
    All-imp (λ later after same. omega (arith, after same, bound)) xs h

cooling-false :
    (cooldown now t : ℕ) (key key' : String) (m : Map ℕ)
    → lookup key m ≡ some t
    → cooling cooldown now (lookup key' m) ≡ false
    → key' ≡ key
    → t + cooldown ≤ now
cooling-false cooldown now t key key' m h free same =
    let at_key = subst (λ k. cooling cooldown now (lookup k m) ≡ false) same free in
    let bounded = (rw h at at_key) in ground arith

lookup-assign_at :
    (key key' : String) (now : ℕ) (m : Map ℕ)
    → key' ≡ key
    → lookup key (assign key' now m) ≡ some now
lookup-assign_at key key' now m same =
    subst (λ k. lookup k (assign key' now m) ≡ some now) same (lookup-assign_same key' now m)

dispatch-NotWithin :
    (cooldown : ℕ) (calls : List (ℕ × Anomaly)) (m : Map ℕ) (key : String) (t : ℕ)
    → lookup key m ≡ some t
    → NotWithin cooldown key t (dispatch cooldown calls m).0
unfolding dispatch should_alert
dispatch-NotWithin cooldown [] m key t h = tt
dispatch-NotWithin cooldown ((now, a) ∷ rest) m key t h =
    elim (Bool-cases (cooling cooldown now (lookup a.dedup_key m))) [
      | inl cools ↦ rw cools (dispatch-NotWithin cooldown rest m key t h)
      | inr free ↦
          let apart = cooling-false cooldown now t key a.dedup_key m h free in
          let m' = assign a.dedup_key now m in
          rw free (
            apart,
            elim (Bool-cases (str_eq a.dedup_key key)) [
              | inl same ↦
                  let k : a.dedup_key ≡ key = ground (arith, eq_iff a.dedup_key key) in
                  NotWithin-earlier cooldown key t now (dispatch cooldown rest m').0 (apart k) (
                    dispatch-NotWithin cooldown rest m' key now
                      (lookup-assign_at key a.dedup_key now m k))
              | inr other ↦
                  let k : a.dedup_key ≢ key = ground (arith, eq_iff a.dedup_key key) in
                  dispatch-NotWithin cooldown rest m' key t
                    (lookup-assign_other a.dedup_key key now m k ∙ h)
            ],
          )
    ]

dispatch-Spaced :
    (cooldown : ℕ) (calls : List (ℕ × Anomaly)) (m : Map ℕ)
    → Spaced cooldown (dispatch cooldown calls m).0
unfolding dispatch should_alert
dispatch-Spaced cooldown [] m = tt
dispatch-Spaced cooldown ((now, a) ∷ rest) m =
    elim (Bool-cases (cooling cooldown now (lookup a.dedup_key m))) [
      | inl cools ↦ rw cools (dispatch-Spaced cooldown rest m)
      | inr free ↦
          let m' = assign a.dedup_key now m in
          rw free (
            dispatch-NotWithin cooldown rest m' a.dedup_key now
                (lookup-assign_same a.dedup_key now m),
            dispatch-Spaced cooldown rest m',
          )
    ]

-- An alert with the key that is in the table or is sent, after which the time is in the cooldown,
-- or which is of that time.
abbrev Covered : ℕ → Map ℕ → List (ℕ × Anomaly) → ℕ × Anomaly → Type 0
Covered cooldown m sent (now, a) =
    (t : ℕ) × ((lookup a.dedup_key m ≡ some t) ⊎ Sent a.dedup_key t sent)
    × ((now < t + cooldown) ⊎ (now ≡ t))

Covered-skip :
    (cooldown : ℕ) (m : Map ℕ) (key : String) (now : ℕ) (x : ℕ × Anomaly)
    (sent : List (ℕ × Anomaly)) (y : ℕ × Anomaly)
    → x.1.dedup_key ≡ key
    → x.0 ≡ now
    → Covered cooldown (assign key now m) sent y
    → Covered cooldown m (x ∷ sent) y
Covered-skip cooldown m key now x sent y k n (t, inr s, near) = (t, inr (inr s), near)
Covered-skip cooldown m key now x sent (later, b) k n (t, inl found, near) =
    elim (Bool-cases (str_eq key b.dedup_key)) [
      | inl same ↦
          let e : key ≡ b.dedup_key = ground (arith, eq_iff key b.dedup_key) in
          let at_now = sym (lookup-assign_at b.dedup_key key now m e) ∙ found in
          (t, inr (inl (k ∙ e, n ∙ some_same now t at_now)), near)
      | inr other ↦
          let ne : key ≢ b.dedup_key = ground (arith, eq_iff key b.dedup_key) in
          (t, inl (sym (lookup-assign_other key b.dedup_key now m ne) ∙ found), near)
    ]
  where
    some_same : (a b : ℕ) → some a ≡ some b → a ≡ b
    some_same a b h = cc

cooling-true :
    (cooldown now : ℕ) (o : Option ℕ)
    → cooling cooldown now o ≡ true
    → (t : ℕ) × (o ≡ some t) × (now < t + cooldown)
cooling-true cooldown now none h = ground arith
cooling-true cooldown now (some t) h = (t, refl, ground arith)

dispatch-suppressed :
    (cooldown now : ℕ) (a : Anomaly) (rest : List (ℕ × Anomaly)) (m : Map ℕ)
    → cooling cooldown now (lookup a.dedup_key m) ≡ true
    → (dispatch cooldown ((now, a) ∷ rest) m).0 ≡ (dispatch cooldown rest m).0
unfolding dispatch should_alert
dispatch-suppressed cooldown now a rest m cools = rw cools refl

dispatch-sent :
    (cooldown now : ℕ) (a : Anomaly) (rest : List (ℕ × Anomaly)) (m : Map ℕ)
    → cooling cooldown now (lookup a.dedup_key m) ≡ false
    → (dispatch cooldown ((now, a) ∷ rest) m).0
      ≡ (now, a) ∷ (dispatch cooldown rest (assign a.dedup_key now m)).0
unfolding dispatch should_alert
dispatch-sent cooldown now a rest m free = rw free refl

dispatch-Covered :
    (cooldown : ℕ) (calls : List (ℕ × Anomaly)) (m : Map ℕ)
    → All (Covered cooldown m (dispatch cooldown calls m).0) calls
dispatch-Covered cooldown [] m = tt
dispatch-Covered cooldown ((now, a) ∷ rest) m =
    elim (Bool-cases (cooling cooldown now (lookup a.dedup_key m))) [
      | inl cools ↦
          let (t, found, near) = cooling-true cooldown now (lookup a.dedup_key m) cools in
          subst (λ sent. All (Covered cooldown m sent) ((now, a) ∷ rest))
            (sym (dispatch-suppressed cooldown now a rest m cools))
            ((t, inl found, inl near), dispatch-Covered cooldown rest m)
      | inr free ↦
          let m' = assign a.dedup_key now m in
          let sent = (dispatch cooldown rest m').0 in
          subst (λ sent. All (Covered cooldown m sent) ((now, a) ∷ rest))
            (sym (dispatch-sent cooldown now a rest m free))
            (
              (now, inr (inl (refl, refl)), inr refl),
              All-imp (λ y. Covered-skip cooldown m a.dedup_key now (now, a) sent y refl refl) rest
                  (dispatch-Covered cooldown rest m'),
            )
    ]

nothing : (key : String) (t : ℕ) → lookup {A = ℕ} key [] ≡ some t → ⊥
unfolding lookup
nothing key t h = ground arith

-- From an empty table, and whatever the clock does: alerts with one key are sent at least the
-- cooldown apart, and every anomaly is sent, or comes less than the cooldown after an alert with its
-- key that is sent, so that none is lost for longer.
pub dispatch-deduplicates :
    (cooldown : ℕ) (calls : List (ℕ × Anomaly))
    → let sent = (dispatch cooldown calls []).0 in
      Spaced cooldown sent
      × All
          (λ call.
            (t : ℕ) × Sent call.1.dedup_key t sent × ((call.0 < t + cooldown) ⊎ (call.0 ≡ t)))
          calls
dispatch-deduplicates cooldown calls = (
  dispatch-Spaced cooldown calls [],
  All-imp sent_only calls (dispatch-Covered cooldown calls []),
)
  where
    sent_only :
        (call : ℕ × Anomaly)
        → Covered cooldown [] (dispatch cooldown calls []).0 call
        → (t : ℕ) × Sent call.1.dedup_key t (dispatch cooldown calls []).0
          × ((call.0 < t + cooldown) ⊎ (call.0 ≡ t))
    sent_only call (t, inr s, near) = (t, s, near)
    sent_only call (t, inl found, near) = absurd (nothing call.1.dedup_key t found)
