-- ===== src/LedgerRange.antt =====
-- The ledger ranges of historical queries, of listener/src/utils/ledger-range-validator.ts, with the
-- `InputValidator` of listener/src/utils/validation.ts. A message is kept as data: its text is only
-- shown. A `ValidationError` is the list of its issues.
pub mod Rules
mod Tests
use package.text.Mathlib.Text.{◌==◌ as str_eq}
use notify_chain.Prelude.{
  ℕ, suc, ◌+◌, ◌-◌, String, Bool, true, false, ◌&&◌, not, Option, none, some, List, [], ◌∷◌, ◌++◌,
  if◌then◌else◌, leb, length,
}

pub data Field : Type 0 where
  start_ledger end_ledger from_ledger to_ledger : Field

pub data Message : Type 0 where
  must_be_an_integer must_be_le_end_ledger is_required : Message
  must_be_at_least must_be_at_most : ℕ → Message
  range_too_large : ℕ → ℕ → Message

pub record ValidationIssue : Type 0 where
  pub field : Field
  pub message : Message

-- A value of unknown type: `negative n` is -(n + 1), and `other` any value that is no integer.
pub data Unknown : Type 0 where
  integer negative : ℕ → Unknown
  other : Unknown

pub record LedgerRange : Type 0 where
  pub start_ledger : ℕ
  pub end_ledger : ℕ

-- What a function returns, or the issues that it throws.
pub data Validated : Type 0 where
  accepted : LedgerRange → Validated
  rejected : List ValidationIssue → Validated

abbrev pub max_ledger_range : ℕ
max_ledger_range = 10000

abbrev pub min_ledger : ℕ
min_ledger = 1

abbrev pub max_ledger_value : ℕ
max_ledger_value = 4294967295

-- `check`: the issues afterwards, and the condition.
unfoldable pub check : Bool → Field → Message → List ValidationIssue → List ValidationIssue × Bool
check condition field message issues = (
  if condition then issues else issues ++ record { field = field; message = message } ∷ [],
  condition,
)

unfoldable pub is_integer : Unknown → Bool
is_integer (integer n) = true
is_integer (negative n) = true
is_integer other = false

unfoldable pub is_at_least : ℕ → Unknown → Bool
is_at_least n (integer m) = leb n m
is_at_least n _ = false

unfoldable pub is_at_most : ℕ → Unknown → Bool
is_at_most n (integer m) = leb m n
is_at_most n (negative m) = true
is_at_most n other = false

-- Rules 1 to 3 for one field: the checks are joined by `&&`, so that a failed one ends them.
unfoldable pub check_bounds : Field → Unknown → List ValidationIssue → List ValidationIssue × Bool
unfolding check is_integer is_at_least is_at_most
check_bounds field v issues =
    let (issues₁, ok₁) = check (is_integer v) field must_be_an_integer issues in
    let (issues₂, ok₂) =
      check (is_at_least min_ledger v) field (must_be_at_least min_ledger) issues₁ in
    let last =
      check (is_at_most max_ledger_value v) field (must_be_at_most max_ledger_value) issues₂ in
    if ok₁ then (if ok₂ then last else (issues₂, false)) else (issues₁, false)

-- Rules 4 and 5.
unfoldable pub check_width : ℕ → ℕ → ℕ → List ValidationIssue → List ValidationIssue
unfolding check
check_width start end max_range issues =
    let (issues', _) = check (leb start end) start_ledger must_be_le_end_ledger issues in
    let width = end - start + 1 in
    if leb start end
    then (check (leb width max_range) end_ledger (range_too_large width max_range) issues').0
    else issues'

-- The number of a value that is a natural number.
abbrev pub number_of : Unknown → ℕ
number_of (integer n) = n
number_of _ = 0

-- `throwIfInvalid`, and the value returned otherwise.
unfoldable pub throw_if_invalid : List ValidationIssue → LedgerRange → Validated
throw_if_invalid [] r = accepted r
throw_if_invalid (i ∷ is) r = rejected (i ∷ is)

-- The issues that `validateLedgerRange` records.
unfoldable pub range_issues : Unknown → Unknown → ℕ → List ValidationIssue
unfolding check_bounds check_width
range_issues start end max_range =
    let (issues₁, start_ok) = check_bounds start_ledger start [] in
    let (issues₂, end_ok) = check_bounds end_ledger end issues₁ in
    if start_ok && end_ok
    then check_width (number_of start) (number_of end) max_range issues₂
    else issues₂

-- `validateLedgerRange`
unfoldable pub validate_ledger_range : Unknown → Unknown → ℕ → Validated
unfolding range_issues throw_if_invalid
validate_ledger_range start end max_range =
    throw_if_invalid (range_issues start end max_range)
      (record { start_ledger = number_of start; end_ledger = number_of end })

pub record LedgerRangeValidationResult : Type 0 where
  pub valid : Bool
  pub issues : List ValidationIssue

abbrev as_result : Validated → LedgerRangeValidationResult
as_result (accepted r) = record { valid = true; issues = [] }
as_result (rejected issues) = record { valid = false; issues = issues }

-- `safeLedgerRangeValidation`
unfoldable pub safe_ledger_range_validation : Unknown → Unknown → ℕ → LedgerRangeValidationResult
unfolding validate_ledger_range
safe_ledger_range_validation start end max_range =
    as_result (validate_ledger_range start end max_range)

unfoldable pub is_present : Option String → Bool
is_present none = false
is_present (some s) = not (str_eq s "")

abbrev pub text_or_empty : Option String → String
text_or_empty none = ""
text_or_empty (some s) = s

abbrev pub raise_or : List ValidationIssue → Validated → Validated
raise_or [] next = next
raise_or (i ∷ is) next = rejected (i ∷ is)

-- `parseLedgerRangeParams`; `Number` of a text is the JavaScript engine's.
unfoldable pub parse_ledger_range_params :
    (String → Unknown) → Option String → Option String → ℕ → Validated
unfolding check is_present validate_ledger_range
parse_ledger_range_params to_number from to max_range =
    let (issues₁, _) = check (is_present from) from_ledger is_required [] in
    let (issues₂, _) = check (is_present to) to_ledger is_required issues₁ in
    raise_or issues₂ (
      validate_ledger_range (to_number (text_or_empty from)) (to_number (text_or_empty to))
        max_range)
