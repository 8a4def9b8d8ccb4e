-- ===== src/LedgerRange/Tests.antt =====
-- Runs of listener/src/utils/ledger-range-validator.ts, and its theorems at concrete values.
use notify_chain.Prelude.{◌≡◌, ◌↔◌, refl, ◌&&◌, String, false, none, some}
use notify_chain.LedgerRange.{
  Unknown, LedgerRange, Validated, validate_ledger_range, range_issues, is_present,
  safe_ledger_range_validation,
}
use notify_chain.LedgerRange.Rules.{Allowed, validate_ledger_range-Allowed}

program : Unit {0}
unfolding validate_ledger_range range_issues is_present safe_ledger_range_validation
program = tt

abbrev ten : LedgerRange
ten = record { start_ledger = 5; end_ledger = 14 }

ten_accepted :
    validate_ledger_range (Unknown.integer 5) (Unknown.integer 14) 10 ≡ Validated.accepted ten
unfolding program
ten_accepted = refl

eleven_rejected :
    (safe_ledger_range_validation (Unknown.integer 5) (Unknown.integer 15) 10).valid ≡ false
unfolding program
eleven_rejected = refl

validate_ledger_range-Allowed_example :
    (validate_ledger_range (Unknown.integer 5) (Unknown.integer 14) 10 ≡ Validated.accepted ten)
    ↔ Allowed (Unknown.integer 5) (Unknown.integer 14) 10 ten
validate_ledger_range-Allowed_example =
    validate_ledger_range-Allowed (Unknown.integer 5) (Unknown.integer 14) 10 ten

abbrev as_nine : String → Unknown
as_nine text = Unknown.integer 9

none_missing : is_present (some "9") && is_present none ≡ false
unfolding program
none_missing = refl
