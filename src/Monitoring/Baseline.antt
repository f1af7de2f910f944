-- ===== src/Monitoring/Baseline.antt =====
-- What the stateful rules compare with: the last samples, and the window of the clock.
use stellar_kraal_backend.Prelude.{
  ltb, leb, Bool-cases, length, drop, length-append, ℕ, zero, suc, ◌+◌, ◌-◌, ◌*◌, ◌≤◌, ◌<◌, ◌≡◌,
  refl, sym, ap, ◌∙◌, subst, ◌⊎◌, inl, inr, some, List, [], ◌∷◌, ◌++◌, arith,
}
use stellar_kraal_backend.Monitoring.{WindowState}
use stellar_kraal_backend.Monitoring.Windows.{push_limited, roll_forward}

-- Samples pushed one after the other.
unfoldable pub pushed_all {ℓ} : {A : Type ℓ} → ℕ → List A → List A → List A
pushed_all limit [] samples = samples
pushed_all limit (v ∷ vs) samples = pushed_all limit vs (push_limited limit v samples)

module _ {ℓ} {A : Type ℓ} where
  append_assoc : (xs ys zs : List A) → (xs ++ ys) ++ zs ≡ xs ++ (ys ++ zs)
  append_assoc [] ys zs = refl
  append_assoc (x ∷ xs) ys zs = ap (λ l. x ∷ l) (append_assoc xs ys zs)

  append_nil : (xs : List A) → xs ++ [] ≡ xs
  append_nil [] = refl
  append_nil (x ∷ xs) = ap (λ l. x ∷ l) (append_nil xs)

  drop_all : (k : ℕ) (xs : List A) → k ≡ 0 → drop k xs ≡ xs
  drop_all k xs z = rw z refl

  drop-suc :
      (limit : ℕ) (x : A) (xs : List A)
      → limit ≤ length xs
      → drop (length (x ∷ xs) - limit) (x ∷ xs) ≡ drop (length xs - limit) xs
  drop-suc limit x xs h =
      let e : suc (length xs) - limit ≡ suc (length xs - limit) = omega arith in rw e refl

  -- The state of the history after one more sample, ahead of the samples still to come.
  shifted :
      (limit : ℕ) (v : A) (samples vs : List A)
      → 0 < limit
      → length samples ≤ limit
      → (length (push_limited limit v samples) ≤ limit)
        × (drop
              (length (push_limited limit v samples ++ vs) - limit)
              (push_limited limit v samples ++ vs)
            ≡ drop (length (samples ++ v ∷ vs) - limit) (samples ++ v ∷ vs))
  shifted limit v [] vs pos h = elim (Bool-cases (ltb limit 1)) [
    | inl over ↦ ground arith
    | inr fits ↦ rw fits (ground arith, refl)
  ]
  shifted limit v (x ∷ xs) vs pos h = elim (Bool-cases (ltb limit (length (x ∷ xs ++ v ∷ [])))) [
    | inl over ↦
        let l1 = length-append xs (v ∷ []) in
        let l2 = length-append xs (v ∷ vs) in
        let reached : limit ≤ length (xs ++ v ∷ vs) = ground (arith, l1, l2) in
        rw over (
          omega (arith, l1, h),
          rw (append_assoc xs (v ∷ []) vs) (sym (drop-suc limit x (xs ++ v ∷ vs) reached)),
        )
    | inr fits ↦ rw fits (ground arith, rw (append_assoc xs (v ∷ []) vs) refl)
  ]

  -- A history of at most as many samples as the limit, which is not 0, holds after any pushes the
  -- last of all its samples, as many as the limit allows, oldest first.
  pub pushed_all-last :
      (limit : ℕ) (vs samples : List A)
      → 0 < limit
      → length samples ≤ limit
      → pushed_all limit vs samples ≡ drop (length (samples ++ vs) - limit) (samples ++ vs)
  unfolding pushed_all
  pushed_all-last limit [] samples pos h = sym (
      drop_all (length (samples ++ []) - limit) (samples ++ [])
        (omega (arith, length-append samples []))
      ∙ append_nil samples)
  pushed_all-last limit (v ∷ vs) samples pos h =
      let (fits, same) = shifted limit v samples vs pos h in
      pushed_all-last limit vs (push_limited limit v samples) pos fits ∙ same

-- The loop ends for every window longer than 0, with fuel for each millisecond from its start to
-- the time: the window it reaches ends after the time and is a whole number of windows after the
-- first; if any window has passed, it starts no later than the time, with a new count.
pub roll_forward-window :
    (fuel now window_ms baseline_windows : ℕ) (s : WindowState)
    → 0 < window_ms
    → 0 < fuel
    → now < s.window_start + fuel
    → (s' : WindowState) × (k : ℕ) × (roll_forward fuel now window_ms baseline_windows s ≡ some s')
      × (s'.window_start ≡ s.window_start + k * window_ms)
      × (now < s'.window_start + window_ms)
      × (((k ≡ 0) × (s' ≡ s)) ⊎ ((0 < k) × (s'.count ≡ 0) × (s'.window_start ≤ now)))
unfolding roll_forward
roll_forward-window zero now window_ms baseline_windows s pos some_fuel enough =
    absurd (omega arith)
roll_forward-window (suc fuel) now window_ms baseline_windows s pos some_fuel enough =
    elim (Bool-cases (leb (s.window_start + window_ms) now)) [
      | inl passed ↦
          let next : WindowState = record {
            window_start = s.window_start + window_ms;
            count = 0;
            history = push_limited baseline_windows s.count s.history;
          } in
          let over : s.window_start + window_ms ≤ now = ground arith in
          let (s', k, e, start, inside, which) =
            roll_forward-window fuel now window_ms baseline_windows next pos (omega arith)
              (omega arith) in
          (
            s',
            suc k,
            rw passed e,
            ground arith,
            inside,
            inr (omega arith, emptied s' k next refl which, started s' k next over which),
          )
      | inr still ↦ (s, 0, rw still refl, omega arith, ground arith, inl (refl, refl))
    ]
  where
    emptied :
        (s' : WindowState) (k : ℕ) (next : WindowState)
        → next.count ≡ 0
        → ((k ≡ 0) × (s' ≡ next)) ⊎ ((0 < k) × (s'.count ≡ 0) × (s'.window_start ≤ now))
        → s'.count ≡ 0
    emptied s' k next z (inl (_, same)) = ap (λ w. w.count) same ∙ z
    emptied s' k next z (inr (_, empty, _)) = empty

    started :
        (s' : WindowState) (k : ℕ) (next : WindowState)
        → next.window_start ≤ now
        → ((k ≡ 0) × (s' ≡ next)) ⊎ ((0 < k) × (s'.count ≡ 0) × (s'.window_start ≤ now))
        → s'.window_start ≤ now
    started s' k next over (inl (_, same)) = subst (λ w. w.window_start ≤ now) (sym same) over
    started s' k next over (inr (_, _, before)) = before
