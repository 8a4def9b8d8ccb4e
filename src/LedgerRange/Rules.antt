-- ===== src/LedgerRange/Rules.antt =====
-- The five rules of listener/src/utils/ledger-range-validator.ts, what it accepts, and what it
-- reports.
use notify_chain.Prelude.{
  ℕ, suc, ◌+◌, ◌-◌, ◌≤◌, ◌≡◌, ◌↔◌, refl, inl, inr, String, Bool, true, false, ◌&&◌, ◌||◌, not,
  if◌then◌else◌, Option, some, List, [], ◌∷◌, arith, leb, Bool-cases,
}
use notify_chain.LedgerRange.{
  Field, ValidationIssue, Unknown, integer, negative, other, LedgerRange, accepted, rejected,
  check_bounds, check_width, range_issues, validate_ledger_range, number_of, throw_if_invalid,
  is_integer, is_at_least, is_at_most, check, max_ledger_value, min_ledger, start_ledger,
  end_ledger, from_ledger, to_ledger, parse_ledger_range_params, is_present,
}

-- What the five rules ask.
pub record Allowed (start end : Unknown) (max_range : ℕ) (r : LedgerRange) : Type 0 where
  pub starts : (start ≡ integer r.start_ledger) × (min_ledger ≤ r.start_ledger)
  pub ends : (end ≡ integer r.end_ledger) × (r.end_ledger ≤ max_ledger_value)
  pub ordered : r.start_ledger ≤ r.end_ledger
  pub narrow : r.end_ledger - r.start_ledger + 1 ≤ max_range

validate_ledger_range_sound :
    (start end : Unknown) (max_range : ℕ) (r : LedgerRange)
    → validate_ledger_range start end max_range ≡ accepted r
    → Allowed start end max_range r
unfolding validate_ledger_range range_issues check_bounds check_width check is_integer is_at_least
    is_at_most throw_if_invalid
validate_ledger_range_sound (integer s) (integer e) max_range r h = record {
  starts = ground arith;
  ends = ground arith;
  ordered = ground arith;
  narrow = ground arith;
}
validate_ledger_range_sound (integer s) (negative e) max_range r h = absurd (ground arith)
validate_ledger_range_sound (integer s) other max_range r h = absurd (ground arith)
validate_ledger_range_sound (negative s) (integer e) max_range r h = absurd (ground arith)
validate_ledger_range_sound (negative s) (negative e) max_range r h = absurd (ground arith)
validate_ledger_range_sound (negative s) other max_range r h = absurd (ground arith)
validate_ledger_range_sound other (integer e) max_range r h = absurd (ground arith)
validate_ledger_range_sound other (negative e) max_range r h = absurd (ground arith)
validate_ledger_range_sound other other max_range r h = absurd (ground arith)

leb-true : (a b : ℕ) → a ≤ b → leb a b ≡ true
leb-true a b h = ground arith

range_issues_none :
    (s e max_range : ℕ)
    → 1 ≤ s
    → e ≤ 4294967295
    → s ≤ e
    → e - s + 1 ≤ max_range
    → range_issues (integer s) (integer e) max_range ≡ []
unfolding range_issues check_bounds check_width check is_integer is_at_least is_at_most
range_issues_none s e max_range h1 h2 h3 h4 = rw (
  leb-true 1 s h1,
  leb-true s 4294967295 (omega arith),
  leb-true 1 e (omega arith),
  leb-true e 4294967295 h2,
  leb-true s e h3,
  leb-true (e - s + 1) max_range h4,
)

validate_ledger_range_complete :
    (start end : Unknown) (max_range : ℕ) (r : LedgerRange)
    → Allowed start end max_range r
    → validate_ledger_range start end max_range ≡ accepted r
unfolding validate_ledger_range throw_if_invalid
validate_ledger_range_complete start end max_range r a =
    let (start_eq, low) = a.starts in
    let (end_eq, high) = a.ends in
    rw (
      start_eq,
      end_eq,
      range_issues_none r.start_ledger r.end_ledger max_range low high a.ordered a.narrow,
    )

-- A range is accepted exactly if both values are ledger numbers between 1 and 2^32 - 1, the first not
-- after the last, and the range is no wider than allowed; and what is returned are those values.
pub validate_ledger_range-Allowed :
    (start end : Unknown) (max_range : ℕ) (r : LedgerRange)
    → (validate_ledger_range start end max_range ≡ accepted r) ↔ Allowed start end max_range r
validate_ledger_range-Allowed start end max_range r = (
  validate_ledger_range_sound start end max_range r,
  validate_ledger_range_complete start end max_range r,
)

-- A value that is a ledger number: a natural number from 1 to 2^32 - 1.
abbrev pub is_ledger_number : Unknown → Bool
is_ledger_number (integer n) = leb 1 n && leb n 4294967295
is_ledger_number _ = false

abbrev same_field : Field → Field → Bool
same_field start_ledger start_ledger = true
same_field end_ledger end_ledger = true
same_field from_ledger from_ledger = true
same_field to_ledger to_ledger = true
same_field _ _ = false

-- How many issues name the field.
abbrev pub issues_of : Field → List ValidationIssue → ℕ
issues_of f [] = 0
issues_of f (i ∷ is) = let rest = issues_of f is in if same_field f i.field then suc rest else rest

-- The number of issues that the rules ask for a bad field: one or none.
abbrev pub one_unless : Bool → ℕ
one_unless true = 0
one_unless false = 1

-- The field of the first value gets one issue if that is no ledger number, or if both are and the
-- first is after the last; the field of the last value gets one if that is no ledger number, or if
-- both are, in order, and the range is too wide; and neither gets any otherwise.
pub range_issues_lem :
    (start end : Unknown) (max_range : ℕ)
    → let s = is_ledger_number start in
      let e = is_ledger_number end in
      let ordered = leb (number_of start) (number_of end) in
      let narrow = leb (number_of end - number_of start + 1) max_range in
      let issues = range_issues start end max_range in
      (issues_of start_ledger issues ≡ one_unless (s && (not e || ordered)))
      × (issues_of end_ledger issues ≡ one_unless (e && (not s || not ordered || narrow)))
unfolding range_issues check_bounds check_width check is_integer is_at_least is_at_most
range_issues_lem (integer s) (integer e) max_range = ground arith
range_issues_lem (integer s) (negative e) max_range = ground arith
range_issues_lem (integer s) other max_range = ground arith
range_issues_lem (negative s) (integer e) max_range = ground arith
range_issues_lem (negative s) (negative e) max_range = (refl, refl)
range_issues_lem (negative s) other max_range = (refl, refl)
range_issues_lem other (integer e) max_range = ground arith
range_issues_lem other (negative e) max_range = (refl, refl)
range_issues_lem other other max_range = (refl, refl)

-- A query that misses any of the two ledgers is rejected with one issue for each that is missing,
-- whatever the other is.
pub parse_ledger_range_params-missing :
    (to_number : String → Unknown) (from to : Option String) (max_range : ℕ)
    → is_present from && is_present to ≡ false
    → (issues : List ValidationIssue) × (parse_ledger_range_params to_number from to max_range
        ≡ rejected issues)
      × (issues_of from_ledger issues ≡ one_unless (is_present from))
      × (issues_of to_ledger issues ≡ one_unless (is_present to))
unfolding parse_ledger_range_params check
parse_ledger_range_params-missing to_number from to max_range h =
    elim (Bool-cases (is_present from)) [
      | inl f ↦ elim (Bool-cases (is_present to)) [
        | inl t ↦ absurd (ground arith)
        | inr t ↦ rw (f, t) (_, refl, refl, refl)
      ]
      | inr f ↦ elim (Bool-cases (is_present to)) [
        | inl t ↦ rw (f, t) (_, refl, refl, refl)
        | inr t ↦ rw (f, t) (_, refl, refl, refl)
      ]
    ]

-- A query that names both ledgers is validated as their numbers.
parse_ledger_range_params-present :
    (to_number : String → Unknown) (from to : String) (max_range : ℕ)
    → is_present (some from) ≡ true
    → is_present (some to) ≡ true
    → parse_ledger_range_params to_number (some from) (some to) max_range
      ≡ validate_ledger_range (to_number from) (to_number to) max_range
unfolding parse_ledger_range_params check
parse_ledger_range_params-present to_number from to max_range f t = rw (f, t)
