-- ===== src/DataTable/Pages.antt =====
-- The page buttons of frontend/src/components/ui/Pagination.tsx.
use stellar_kraal_backend.Prelude.{
  ltb, leb, ◌==◌, Bool-cases, ℕ, zero, suc, max, min, ◌+◌, ◌-◌, ◌≤◌, ◌<◌, ◌≡◌, refl, ap, subst, inl,
  inr, Bool, true, false, ◌||◌, Option, none, some, List, [], ◌∷◌, ◌++◌, arith,
}
use stellar_kraal_backend.DataTable.{entries, ellipsis_if, get_page_numbers}

-- From page `a`, the entries lead to the last page `total`: a number is the next page, and an
-- ellipsis stands for at least one page that is left out.
abbrev pub Trail : ℕ → ℕ → List (Option ℕ) → Type 0
Trail a total [] = a ≡ total
Trail a total (some b ∷ rest) = (b ≡ suc a) × Trail b total rest
Trail a total (none ∷ []) = ⊥
Trail a total (none ∷ none ∷ rest) = ⊥
Trail a total (none ∷ some b ∷ rest) = (suc a < b) × Trail b total rest

-- A page is among the entries.
abbrev pub shows : ℕ → List (Option ℕ) → Bool
shows page [] = false
shows page (none ∷ rest) = shows page rest
shows page (some b ∷ rest) = b == page || shows page rest

entries-Trail :
    (a m total : ℕ) (rest : List (Option ℕ))
    → Trail (a + m) total rest
    → Trail a total (entries (suc a) m ++ rest)
entries-Trail a zero total rest h = subst (λ x. Trail x total rest) (omega arith) h
entries-Trail a (suc m) total rest h =
    (refl, entries-Trail (suc a) m total rest (subst (λ x. Trail x total rest) (omega arith) h))

shows-entries :
    (page k m : ℕ) (rest : List (Option ℕ))
    → k ≤ page
    → page < k + m
    → shows page (entries k m ++ rest) ≡ true
shows-entries page k zero rest low high = absurd (omega arith)
shows-entries page k (suc m) rest low high = elim (Bool-cases (k == page)) [
  | inl e ↦ ground arith
  | inr e ↦ ground (arith, shows-entries page (suc k) m rest)
]

shows-append :
    (page : ℕ) (xs ys : List (Option ℕ)) → shows page ys ≡ true → shows page (xs ++ ys) ≡ true
shows-append page [] ys h = h
shows-append page (none ∷ xs) ys h = shows-append page xs ys h
shows-append page (some b ∷ xs) ys h = ground (arith, shows-append page xs ys h)

-- The pages around the current one, when there are more than seven.
abbrev pub first_near : ℕ → ℕ
first_near current = max 2 (current - 1)

abbrev pub last_near : ℕ → ℕ → ℕ
last_near current total = min (total - 1) (current + 1)

near-entries :
    (first last : ℕ)
    → first ≤ last
    → entries first ((last + 1) - first) ≡ some first ∷ entries (suc first) (last - first)
near-entries first last h =
    let same : (last + 1) - first ≡ suc (last - first) = omega arith in ap (entries first) same

start-Trail :
    (current first total : ℕ) (rest : List (Option ℕ))
    → first ≡ first_near current
    → Trail first total rest
    → Trail 1 total (ellipsis_if (ltb 3 current) ++ some first ∷ rest)
start-Trail current first total rest e h = elim (Bool-cases (ltb 3 current)) [
  | inl k ↦ rw k (ground arith, h)
  | inr k ↦ rw k (ground arith, h)
]

end-Trail :
    (current last total : ℕ)
    → 7 < total
    → current ≤ total
    → last ≡ last_near current total
    → Trail last total (ellipsis_if (ltb current (total - 2)) ++ some total ∷ [])
end-Trail current last total many le e = elim (Bool-cases (ltb current (total - 2))) [
  | inl k ↦ rw k (ground arith, refl)
  | inr k ↦ rw k (ground arith, refl)
]

append-nil : (xs : List (Option ℕ)) → xs ++ [] ≡ xs
append-nil [] = refl
append-nil (x ∷ xs) = ap (λ ys. x ∷ ys) (append-nil xs)

-- A list of page buttons for a current page.
abbrev pub IsPageList : ℕ → ℕ → List (Option ℕ) → Type 0
IsPageList current total pages =
    (rest : List (Option ℕ)) × (pages ≡ some 1 ∷ rest)
    × Trail 1 total rest
    × (shows current pages ≡ true)

all_pages :
    (current total : ℕ)
    → 1 ≤ current
    → current ≤ suc total
    → IsPageList current (suc total) (entries 1 (suc total))
all_pages current total low high = (
  entries 2 total,
  refl,
  subst (λ xs. Trail 1 (suc total) xs) (append-nil (entries 2 total))
      (entries-Trail 1 total (suc total) [] (omega arith)),
  subst (λ xs. shows current xs ≡ true) (append-nil (entries 1 (suc total)))
      (shows-entries current 1 (suc total) [] low (omega arith)),
)

shown :
    (current total : ℕ) (before after : List (Option ℕ))
    → 1 ≤ current
    → current ≤ total
    → shows current (
        some 1
        ∷ (before
            ++ (entries (first_near current) ((last_near current total + 1) - first_near current)
                ++ (after ++ some total ∷ []))))
      ≡ true
shown current total before after low high = elim (Bool-cases (1 == current)) [
  | inl e ↦ ground arith
  | inr e ↦ rw e (
      shows-append current before _ (elim (Bool-cases (total == current)) [
        | inl k ↦
            shows-append current
              (entries (first_near current) ((last_near current total + 1) - first_near current)) _
              (shows-append current after (some total ∷ []) (ground arith))
        | inr k ↦
            shows-entries current (first_near current)
              ((last_near current total + 1) - first_near current) _ (ground arith) (ground arith)
      ]))
]

many_pages :
    (current total : ℕ)
    → 7 < total
    → 1 ≤ current
    → current ≤ total
    → IsPageList current total (
        some 1
        ∷ (ellipsis_if (ltb 3 current)
            ++ (entries (first_near current) ((last_near current total + 1) - first_near current)
                ++ (ellipsis_if (ltb current (total - 2)) ++ some total ∷ []))))
many_pages current total many low high =
    let first = first_near current in
    let last = last_near current total in
    let le : first ≤ last = omega arith in
    let after = ellipsis_if (ltb current (total - 2)) ++ some total ∷ [] in
    let ends : Trail last total after = end-Trail current last total many high refl in
    let goes : Trail first total (entries (suc first) (last - first) ++ after) =
      entries-Trail first (last - first) total after
        (subst (λ x. Trail x total after) (omega arith) ends) in
    (
      _,
      refl,
      rw (near-entries first last le) (start-Trail current first total _ refl goes),
      shown current total (ellipsis_if (ltb 3 current)) (ellipsis_if (ltb current (total - 2))) low
          high,
    )

-- For a current page from 1 to the last one, the page buttons start with page 1 and end with the
-- last page, show the current one, and count up by one between neighbours, except where an ellipsis
-- stands, which leaves out at least one page.
pub get_page_numbers-IsPageList :
    (current total : ℕ)
    → 1 ≤ current
    → current ≤ total
    → IsPageList current total (get_page_numbers current total)
unfolding get_page_numbers
get_page_numbers-IsPageList current zero low high = absurd (omega arith)
get_page_numbers-IsPageList current (suc total) low high = elim (Bool-cases (leb (suc total) 7)) [
  | inl e ↦ rw e (all_pages current total low high)
  | inr e ↦ rw e (many_pages current (suc total) (ground arith) low high)
]
