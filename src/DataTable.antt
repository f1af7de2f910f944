-- ===== src/DataTable.antt =====
-- The state of the table of frontend/src/components/ui (AccessibleDataTable.tsx, Pagination.tsx,
-- VirtualizedRows.tsx). Positions are in pixels, row heights are positive, and page numbers are those
-- that the table itself sets, from 1. The order and the filter of the rows are left out.
pub mod Pages
pub mod Rows
use stellar_kraal_backend.Prelude.{
  ltb, leb, ◌==◌, if◌then◌else◌, length, filter, contains, ℕ, zero, suc, max, min, ◌+◌, ◌-◌, ◌*◌,
  ◌/◌, String, Bool, true, false, not, ◌||◌, Option, none, some, List, [], ◌∷◌, ◌++◌, str_eq,
}

pub data SortDirection : Type 0 where
  ascending descending unsorted : SortDirection

pub record SortState : Type 0 where
  pub column_key : String
  pub direction : SortDirection

unfoldable pub next_sort_direction : SortDirection → SortDirection
next_sort_direction unsorted = ascending
next_sort_direction ascending = descending
next_sort_direction descending = unsorted

unfoldable pub handle_sort : String → SortState → SortState
unfolding next_sort_direction
handle_sort column s = record {
  column_key = column;
  direction = if str_eq s.column_key column then next_sort_direction s.direction else ascending;
}

-- The keys of the selected rows, as a `Set` in the order of insertion.
unfoldable pub toggle_row : String → List String → List String
unfolding contains
toggle_row key selected =
    if contains key selected
    then filter (λ k. not (str_eq k key)) selected
    else selected ++ key ∷ []

-- `keys` are those of the rows of the page.
unfoldable pub toggle_all : List String → List String → List String
toggle_all keys selected = if length selected == length keys then [] else keys

-- The focused cell, each coordinate plus 1: row 0 is the header, column 0 stands for -1.
pub record Focus : Type 0 where
  pub row : ℕ
  pub column : ℕ

pub data Key : Type 0 where
  arrow_down arrow_up arrow_right arrow_left home end_key : Key

-- `rows` and `columns` are the numbers of rows of the page and of columns.
abbrev pub focus_cell : ℕ → ℕ → ℕ → ℕ → Focus
focus_cell rows columns row column = record {
  row = min row rows;
  column = max 1 (min column columns);
}

unfoldable pub handle_key : ℕ → ℕ → Key → Focus → Focus
handle_key rows columns arrow_down f = focus_cell rows columns (f.row + 1) f.column
handle_key rows columns arrow_up f = focus_cell rows columns (f.row - 1) f.column
handle_key rows columns arrow_right f = focus_cell rows columns f.row (f.column + 1)
handle_key rows columns arrow_left f = focus_cell rows columns f.row (f.column - 1)
handle_key rows columns home f = focus_cell rows columns f.row 1
handle_key rows columns end_key f = focus_cell rows columns f.row columns

-- The numbers from `k` on, `m` of them, as the entries of the page list.
abbrev pub entries : ℕ → ℕ → List (Option ℕ)
entries k zero = []
entries k (suc m) = some k ∷ entries (suc k) m

abbrev pub ellipsis_if : Bool → List (Option ℕ)
ellipsis_if true = none ∷ []
ellipsis_if false = []

-- The pages to show, `none` for an ellipsis.
unfoldable pub get_page_numbers : ℕ → ℕ → List (Option ℕ)
get_page_numbers current total =
    if leb total 7
    then entries 1 total
    else some 1
      ∷ (ellipsis_if (ltb 3 current)
          ++ (entries (max 2 (current - 1))
                ((min (total - 1) (current + 1) + 1) - max 2 (current - 1))
              ++ (ellipsis_if (ltb current (total - 2)) ++ some total ∷ [])))

-- The page after a press of a button.
unfoldable pub go_to : ℕ → ℕ → ℕ → ℕ
go_to total page current = if ltb page 1 || ltb total page then current else page

abbrev pub start_index : ℕ → ℕ → ℕ → ℕ
start_index row_height overscan scroll_top = scroll_top / row_height - overscan

-- `Math.ceil(containerHeight / rowHeight)`
abbrev pub visible_count : ℕ → ℕ → ℕ
visible_count row_height container_height = (container_height + (row_height - 1)) / row_height

unfoldable pub end_index : ℕ → ℕ → ℕ → ℕ → ℕ → ℕ
end_index items row_height container_height overscan scroll_top = min items (
    start_index row_height overscan scroll_top
    + visible_count row_height container_height
    + overscan * 2)
