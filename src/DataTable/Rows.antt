-- ===== src/DataTable/Rows.antt =====
-- The rows that frontend/src/components/ui/VirtualizedRows.tsx renders.
use stellar_kraal_backend.Prelude.{count, ℕ, suc, min, ◌+◌, ◌-◌, ◌*◌, ◌/◌, ◌≤◌, ◌<◌, arith}
use native.Mathlib.Nat.{lt-div-mul-add, div-mul-le_self, lt_of_mul-lt-mul_right}
use stellar_kraal_backend.DataTable.{start_index, visible_count, end_index}

before_end :
    (items i q count overscan : ℕ)
    → 1 ≤ overscan
    → i < items
    → i < q + 1 + count
    → i < min items (q - overscan + count + overscan * 2)
before_end items i q count overscan o inside last = omega arith

-- With an overscan of at least one row, every row of which a pixel is in the viewport is among the
-- rendered ones.
pub visible-rendered :
    (items row_height container_height overscan scroll_top i : ℕ)
    → 0 < row_height
    → 1 ≤ overscan
    → i < items
    → i * row_height < scroll_top + container_height
    → scroll_top < suc i * row_height
    → (start_index row_height overscan scroll_top ≤ i)
      × (i < end_index items row_height container_height overscan scroll_top)
unfolding end_index
visible-rendered items row_height container_height overscan scroll_top i pos some_over inside above
      below =
    let q = scroll_top / row_height in
    let low : q * row_height ≤ scroll_top = div-mul-le_self scroll_top row_height in
    let high : scroll_top < q * row_height + row_height = lt-div-mul-add pos in
    let rounded : container_height + (row_height - 1)
        < visible_count row_height container_height * row_height + row_height =
      lt-div-mul-add pos in
    let first : q < suc i = lt_of_mul-lt-mul_right row_height (omega arith) in
    let count = visible_count row_height container_height in
    let last : i < q + 1 + count = lt_of_mul-lt-mul_right row_height (grind arith) in
    (omega arith, before_end items i q count overscan some_over inside last)
