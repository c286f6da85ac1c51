-- ===== src/ResultBook.antt =====
-- `ResultBook` of python/hcicontroller/results.py. Texts are octets; the printed report is not kept.
mod Examples
use mathlib.Core.Logic.{◌↔◌}
use hci_controller.Base.{
  if◌then◌else◌, All, ℕ, ◌≡◌, refl, sym, ap, ◌∙◌, ◌≢◌, Bool, true, false, not, ◌&&◌, ◌||◌, List, [],
  ◌∷◌, ◌++◌, append-nil, append_assoc, arith,
}

pub data Status : Type 0 where
  passed_status failed_status not_applicable_status incomplete_status : Status

-- The class `Result`: one procedure's outcome.
pub record Procedure : Type 0 where
  pub group : List ℕ
  pub name : List ℕ
  pub status : Status
  pub detail : List ℕ

pub record Book : Type 0 where
  pub title : List ℕ
  pub results : List Procedure

-- `__init__`
abbrev pub empty_book : List ℕ → Book
empty_book title = record { title = title; results = [] }

-- `add`
pub add : Procedure → Book → Book
add p b = record b { results = b.results ++ (p ∷ []) }

abbrev pub is_failure : Status → Bool
is_failure failed_status = true
is_failure _ = false

abbrev pub is_incomplete : Status → Bool
is_incomplete incomplete_status = true
is_incomplete _ = false

-- Python's `any` over the results.
pub any_status : (Status → Bool) → List Procedure → Bool
any_status test [] = false
any_status test (p ∷ ps) = test p.status || any_status test ps

-- `has_failures`
pub has_failures : Book → Bool
has_failures b = any_status is_failure b.results

-- `has_incomplete`
pub has_incomplete : Book → Bool
has_incomplete b = any_status is_incomplete b.results

abbrev pub is_nonempty : List Procedure → Bool
is_nonempty [] = false
is_nonempty (p ∷ ps) = true

-- `release_passed`
pub release_passed : Book → Bool
release_passed b = is_nonempty b.results && (not (has_failures b) && not (has_incomplete b))

-- `exit_code`
pub exit_code : Book → ℕ
exit_code b = if release_passed b then 0 else 1

-- A run that records its procedures one after the other.
pub record_all : List Procedure → Book → Book
record_all [] b = b
record_all (p ∷ ps) b = record_all ps (add p b)

-- A procedure that does not stand in the way of a release.
abbrev pub IsClean : Procedure → Type 0
IsClean p = (is_failure p.status || is_incomplete p.status) ≡ false

record_all_lem :
    (ps : List Procedure) (b : Book) → record_all ps b ≡ record b { results = b.results ++ ps }
unfolding record_all add
record_all_lem [] b = ap (λ r. record b { results = r }) (sym (append-nil b.results))
record_all_lem (p ∷ ps) b =
    record_all_lem ps (add p b)
    ∙ ap (λ r. record b { results = r }) (append_assoc b.results (p ∷ []) ps)

any_status-IsClean :
    (ps : List Procedure)
    → any_status is_failure ps ≡ false
    → any_status is_incomplete ps ≡ false
    → All IsClean ps
unfolding any_status
any_status-IsClean [] f i = tt
any_status-IsClean (p ∷ ps) f i =
    (ground arith, any_status-IsClean ps (ground arith) (ground arith))

IsClean-any_status :
    (ps : List Procedure)
    → All IsClean ps
    → (any_status is_failure ps ≡ false) × (any_status is_incomplete ps ≡ false)
unfolding any_status
IsClean-any_status [] hs = (refl, refl)
IsClean-any_status (p ∷ ps) hs =
    let (f, i) = IsClean-any_status ps hs.1 in (ground (arith, hs.0, f), ground (arith, hs.0, i))

exit_code-zero :
    (title : List ℕ) (p : Procedure) (ps : List Procedure)
    → exit_code (record { title = title; results = p ∷ ps }) ≡ 0
    → (any_status is_failure (p ∷ ps) ≡ false) × (any_status is_incomplete (p ∷ ps) ≡ false)
unfolding exit_code release_passed has_failures has_incomplete
exit_code-zero title p ps e = (ground arith, ground arith)

empty_lem : (title : List ℕ) → ¬ (exit_code (empty_book title) ≡ 0)
unfolding exit_code release_passed
empty_lem title e = omega arith

-- The exit code of a run from an empty book is 0 exactly when it has recorded some procedure and none
-- that failed or was left incomplete, whenever that was.
pub exit_code-IsClean :
    (title : List ℕ) (ps : List Procedure)
    → (exit_code (record_all ps (empty_book title)) ≡ 0) ↔ ((ps ≢ []) × All IsClean ps)
unfolding exit_code release_passed has_failures has_incomplete
exit_code-IsClean title [] = (
  λ e. absurd (empty_lem title (rw (record_all_lem [] (empty_book title)) at e)),
  λ h. absurd (h.0 refl),
)
exit_code-IsClean title (p ∷ ps) = rw (record_all_lem (p ∷ ps) (empty_book title)) (
  λ e. let (f, i) = exit_code-zero title p ps e in (λ n. cc n, any_status-IsClean (p ∷ ps) f i),
  λ h. let (f, i) = IsClean-any_status (p ∷ ps) h.1 in rw (exit_code, f, i) refl,
)
