-- ===== src/ResultBook/Examples.antt =====
-- A run with one procedure passed and one that does not apply.
use mathlib.Core.Logic.{◌↔◌, ◌≢◌}
use hci_controller.Base.{All, ◌≡◌, List, [], ◌∷◌}
use hci_controller.ResultBook.{
  Procedure, passed_status, not_applicable_status, exit_code, record_all, empty_book, IsClean,
  exit_code-IsClean,
}

abbrev clean_run : List Procedure
clean_run =
    record { group = []; name = 1 ∷ []; status = passed_status; detail = [] }
    ∷ record { group = []; name = 2 ∷ []; status = not_applicable_status; detail = [] }
    ∷ []

exit_code-IsClean_example :
    (exit_code (record_all clean_run (empty_book [])) ≡ 0)
    ↔ ((clean_run ≢ []) × All IsClean clean_run)
exit_code-IsClean_example = exit_code-IsClean [] clean_run
