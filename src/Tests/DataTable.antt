-- ===== src/Tests/DataTable.antt =====
-- A table of twenty pages, scrolled and navigated.
use stellar_kraal_backend.Prelude.{◌≤◌, ◌<◌, ◌≡◌, refl, none, some, [], ◌∷◌, arith}
use stellar_kraal_backend.DataTable.{
  get_page_numbers, start_index, end_index, handle_key, arrow_up, toggle_all,
}
use stellar_kraal_backend.DataTable.Pages.{IsPageList, get_page_numbers-IsPageList}
use stellar_kraal_backend.DataTable.Rows.{visible-rendered}

run : Unit {0}
unfolding get_page_numbers end_index handle_key toggle_all
run = tt

get_page_numbers-IsPageList_example : IsPageList 10 20 (get_page_numbers 10 20)
get_page_numbers-IsPageList_example = get_page_numbers-IsPageList 10 20 (omega arith) (omega arith)

pages_test :
    get_page_numbers 10 20 ≡ some 1 ∷ none ∷ some 9 ∷ some 10 ∷ some 11 ∷ none ∷ some 20 ∷ []
unfolding run
pages_test = refl

visible-rendered_example : (start_index 48 5 1000 ≤ 20) × (20 < end_index 200 48 500 5 1000)
visible-rendered_example =
    visible-rendered 200 48 500 5 1000 20 (omega arith) (omega arith) (omega arith) (omega arith)
      (omega arith)

header_test :
    handle_key 20 5 arrow_up (record { row = 0; column = 3 }) ≡ record { row = 0; column = 3 }
unfolding run
header_test = refl

-- As many rows of another page are selected as this page has: the selection is emptied.
select_all_test : toggle_all ("c" ∷ "d" ∷ []) ("a" ∷ "b" ∷ []) ≡ []
unfolding run
select_all_test = refl
