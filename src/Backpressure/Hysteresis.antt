-- ===== src/Backpressure/Hysteresis.antt =====
-- The two thresholds of listener/src/services/backpressure-controller.ts.
use notify_chain.Prelude.{ℕ, ◌≤◌, ◌<◌, ◌≡◌, ◌↔◌, ◌⊎◌, ◌||◌, refl, true, false, List, [], ◌∷◌, arith}
use notify_chain.Backpressure.{
  Controller, check_and_apply_backpressure, activate_backpressure, deactivate_backpressure,
  is_active,
}

-- The checks that were made, the last one first, each at its time with the size of the queue.
unfoldable pub checked : List (ℕ × ℕ) → Controller → Controller
unfolding check_and_apply_backpressure
checked [] c = c
checked ((now, queue_size) ∷ earlier) c =
    (check_and_apply_backpressure now queue_size (checked earlier c)).0

-- At some check the queue was saturated, and at no check after it had it recovered.
abbrev pub Saturated : ℕ → ℕ → List (ℕ × ℕ) → Type 0
Saturated saturation recovery [] = ⊥
Saturated saturation recovery ((now, queue_size) ∷ earlier) =
    (saturation ≤ queue_size) ⊎ ((recovery < queue_size) × Saturated saturation recovery earlier)

check_thresholds :
    (now n : ℕ) (c : Controller)
    → let c' = (check_and_apply_backpressure now n c).0 in
      (c'.saturation_threshold ≡ c.saturation_threshold)
      × (c'.recovery_threshold ≡ c.recovery_threshold)
unfolding check_and_apply_backpressure activate_backpressure deactivate_backpressure
check_thresholds now n c = ground arith

checked_thresholds :
    (es : List (ℕ × ℕ)) (c : Controller)
    → ((checked es c).saturation_threshold ≡ c.saturation_threshold)
      × ((checked es c).recovery_threshold ≡ c.recovery_threshold)
unfolding checked
checked_thresholds [] c = (refl, refl)
checked_thresholds ((now, n) ∷ es) c =
    ground (arith, check_thresholds now n (checked es c), checked_thresholds es c)

check-is_active_iff :
    (now n : ℕ) (c : Controller)
    → c.recovery_threshold < c.saturation_threshold
    → (is_active (check_and_apply_backpressure now n c).0 ≡ true)
      ↔ ((c.saturation_threshold ≤ n) ⊎ ((c.recovery_threshold < n) × (is_active c ≡ true)))
unfolding check_and_apply_backpressure activate_backpressure deactivate_backpressure is_active
check-is_active_iff now n c h = ground arith

-- If the recovery threshold is below the saturation threshold, then after any checks of a controller
-- that was not active it is active exactly if at some check the queue had reached the saturation
-- threshold and at no check after it the queue was down to the recovery threshold.
pub is_active-checked_iff :
    (es : List (ℕ × ℕ)) (c : Controller)
    → c.recovery_threshold < c.saturation_threshold
    → is_active c ≡ false
    → (is_active (checked es c) ≡ true) ↔ Saturated c.saturation_threshold c.recovery_threshold es
unfolding checked
is_active-checked_iff [] c below idle = ground arith
is_active-checked_iff ((now, n) ∷ es) c below idle = ground (
  arith,
  check-is_active_iff now n (checked es c),
  checked_thresholds es c,
  is_active-checked_iff es c below idle,
)

-- A check answers true exactly if backpressure was active before it or is active after it, so also
-- when it has just ended.
pub check_and_apply_backpressure_answer :
    (now queue_size : ℕ) (c : Controller)
    → (check_and_apply_backpressure now queue_size c).1
      ≡ is_active c || is_active (check_and_apply_backpressure now queue_size c).0
unfolding check_and_apply_backpressure activate_backpressure deactivate_backpressure is_active
check_and_apply_backpressure_answer now queue_size c = ground arith
