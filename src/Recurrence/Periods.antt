-- ===== src/Recurrence/Periods.antt =====
-- The number of periods that `periodsToMovePast` of listener/src/services/recurrence.ts finds.
use native.Mathlib.Nat.{
  mul_comm, mul_assoc, mul-suc, mul-le-mul, mul-le-mul_left, div-add-mod, mod-lt,
}
use notify_chain.Prelude.{
  ℕ, zero, suc, ◌+◌, ◌-◌, ◌*◌, ◌/◌, ◌≤◌, ◌<◌, ◌≡◌, refl, sym, ap, ◌∙◌, subst, inl, inr, max, false,
  arith, ltb, leb, Bool-cases,
}
use notify_chain.Recurrence.{
  Frequency, minutely, hourly, daily, weekly, monthly, is_monthly, Calendar, unit_ms, add_periods,
  count_up, count_down, periods_to_move_past,
}

-- In the calendar a date moves on when it is put more months later.
abbrev pub MonthsGrow : Calendar → Type 0
MonthsGrow cal =
    (date interval p : ℕ)
    → 1 ≤ interval
    → add_periods cal date monthly interval p < add_periods cal date monthly interval (suc p)

module _ (cal : Calendar) (date : ℕ) (frequency : Frequency) (interval : ℕ) where
  abbrev at : ℕ → ℕ
  at p = add_periods cal date frequency interval p

  -- That many periods lead past the end, and no smaller number from one on does.
  abbrev pub IsFirstPast : ℕ → ℕ → Type 0
  IsFirstPast end k = (1 ≤ k) × (end < at k) × ((j : ℕ) → 1 ≤ j → j < k → at j ≤ end)

  module _ (grows : (p : ℕ) → at p < at (suc p)) where
    at_mono : (p d : ℕ) → at p ≤ at (d + p)
    at_mono p zero = let same : at (0 + p) ≡ at p = ap at (omega arith) in omega (arith, same)
    at_mono p (suc d) =
        let more : at (suc (d + p)) ≡ at (suc d + p) = ap at (omega arith) in
        omega (arith, at_mono p d, grows (d + p), more)

    at_above : (p : ℕ) → p ≤ at p
    at_above zero = omega arith
    at_above (suc p) = omega (arith, at_above p, grows p)

    count_up-past :
        (fuel end p : ℕ)
        → 1 ≤ p
        → end < fuel + p
        → (1 ≤ count_up cal fuel date end frequency interval p)
          × (end < at (count_up cal fuel date end frequency interval p))
    unfolding count_up
    count_up-past zero end p positive enough = (positive, omega (arith, enough, at_above p))
    count_up-past (suc fuel) end p positive enough = elim (Bool-cases (leb (at p) end)) [
      | inl early ↦ rw early (count_up-past fuel end (suc p) (omega arith) (omega (arith, enough)))
      | inr past ↦ rw past (positive, ground (arith, past))
    ]

    count_down-IsFirstPast :
        (end p : ℕ)
        → 1 ≤ p
        → end < at p
        → IsFirstPast end (count_down cal date end frequency interval p)
    unfolding count_down
    count_down-IsFirstPast end zero positive past = absurd (omega (arith, positive))
    count_down-IsFirstPast end (suc zero) positive past =
        (positive, past, (λ j one below. absurd (omega (arith, one, below))))
    count_down-IsFirstPast end (suc (suc p)) positive past =
        elim (Bool-cases (ltb end (at (suc p)))) [
          | inl before ↦
              let down : count_down cal date end frequency interval (suc (suc p))
                  ≡ count_down cal date end frequency interval (suc p) =
                ground (arith, before) in
              subst (IsFirstPast end) (sym down)
                (count_down-IsFirstPast end (suc p) (omega arith) (ground (arith, before)))
          | inr reached ↦
              let stays : count_down cal date end frequency interval (suc (suc p)) ≡ suc (suc p) =
                ground (arith, reached) in
              subst (IsFirstPast end) (sym stays) (
                positive,
                past,
                (λ j one below.
                    let d = suc p - j in
                    let there : at (d + j) ≡ at (suc p) = ap at (omega (arith, below)) in
                    ground (arith, at_mono j d, there, reached)),
              )
        ]

-- Dividing rounds down: the last multiple that is not above, and the next that is.
div-first : (x d : ℕ) → 1 ≤ x → (d < x * (d / x + 1)) × ((j : ℕ) → j < d / x + 1 → x * j ≤ d)
div-first x d positive =
    let total = div-add-mod d x in
    let rest = mod-lt d {m = x} (omega (arith, positive)) in
    let next : x * (d / x + 1) ≡ x * (d / x) + x =
      ap (λ y. x * y) (omega arith) ∙ mul-suc x (d / x) in
    (
      omega (arith, total, rest, next),
      (λ j below.
          omega (arith, mul-le-mul_left {m = j} {n = d / x} x (omega (arith, below)), total)),
    )

unit_ms-positive : (frequency : Frequency) → is_monthly frequency ≡ false → 1 ≤ unit_ms frequency
unfolding unit_ms
unit_ms-positive minutely h = omega arith
unit_ms-positive hourly h = omega arith
unit_ms-positive daily h = omega arith
unit_ms-positive weekly h = omega arith
unit_ms-positive monthly h = absurd (ground arith)

module _ (cal : Calendar) (date interval : ℕ) (some_interval : 1 ≤ interval) where
  add_periods-eq :
      (frequency : Frequency) (p : ℕ)
      → is_monthly frequency ≡ false
      → add_periods cal date frequency interval p ≡ date + unit_ms frequency * interval * p
  unfolding add_periods
  add_periods-eq frequency p h =
      let u = unit_ms frequency in
      let same : interval * p * u ≡ u * interval * p =
        mul_comm (interval * p) u ∙ sym (mul_assoc u interval p) in
      rw h (ap (λ x. date + x) same)

  module _ (now : ℕ) (early : date ≤ now) where
    divided-IsFirstPast :
        (frequency : Frequency)
        → is_monthly frequency ≡ false
        → IsFirstPast cal date frequency interval now
            (periods_to_move_past cal date now frequency interval)
    unfolding periods_to_move_past
    divided-IsFirstPast frequency h =
        let x = unit_ms frequency * interval in
        let positive : 1 ≤ x = omega (
          arith,
          mul-le-mul {n₁ = 1} {m₁ = 1} {n₂ = unit_ms frequency} {m₂ = interval}
              (unit_ms-positive frequency h) some_interval,
        ) in
        let k = (now - date) / x + 1 in
        let (past, before) = div-first x (now - date) positive in
        let found : periods_to_move_past cal date now frequency interval ≡ k = rw h refl in
        subst (IsFirstPast cal date frequency interval now) (sym found) (
          omega arith,
          omega (arith, add_periods-eq frequency k h, past, early),
          (λ j one below. omega (arith, add_periods-eq frequency j h, before j below, early)),
        )

    counted-IsFirstPast :
        MonthsGrow cal
        → IsFirstPast cal date monthly interval now
            (periods_to_move_past cal date now monthly interval)
    unfolding periods_to_move_past
    counted-IsFirstPast grows =
        let guess = max 1 ((cal.month_index now - cal.month_index date) / interval) in
        let grows' : (p : ℕ)
            → add_periods cal date monthly interval p
              < add_periods cal date monthly interval (suc p) =
          λ p. grows date interval p some_interval in
        let up = count_up cal (suc now) date now monthly interval guess in
        let (one, past) =
          count_up-past cal date monthly interval grows' (suc now) now guess (omega arith)
            (omega arith) in
        count_down-IsFirstPast cal date monthly interval grows' now up one past

-- In a calendar in which months grow, `periodsToMovePast` finds for a date that is not after `now` the
-- least number of periods, one at least, that leads past `now`.
pub periods_to_move_past-IsFirstPast :
    (cal : Calendar) (candidate now : ℕ) (frequency : Frequency) (interval : ℕ)
    → MonthsGrow cal
    → 1 ≤ interval
    → candidate ≤ now
    → IsFirstPast cal candidate frequency interval now
        (periods_to_move_past cal candidate now frequency interval)
periods_to_move_past-IsFirstPast cal candidate now monthly interval grows some_interval early =
    counted-IsFirstPast cal candidate interval some_interval now early grows
periods_to_move_past-IsFirstPast cal candidate now minutely interval grows some_interval early =
    divided-IsFirstPast cal candidate interval some_interval now early minutely refl
periods_to_move_past-IsFirstPast cal candidate now hourly interval grows some_interval early =
    divided-IsFirstPast cal candidate interval some_interval now early hourly refl
periods_to_move_past-IsFirstPast cal candidate now daily interval grows some_interval early =
    divided-IsFirstPast cal candidate interval some_interval now early daily refl
periods_to_move_past-IsFirstPast cal candidate now weekly interval grows some_interval early =
    divided-IsFirstPast cal candidate interval some_interval now early weekly refl
