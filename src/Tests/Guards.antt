-- ===== src/Tests/Guards.antt =====
-- The memory guard with the default thresholds: src/memory-guard.js.
use objy.Common.{ℕ, ◌≤◌, ◌≡◌, refl, true, none, List, [], ◌∷◌, length, arith}
use objy.MemoryGuard.{Guard, Config, missing, null_value, given, make_guard, rounded_percent}
use objy.MemoryGuard.Hysteresis.{
  make_guard-ordered, after_samples, last_decisive, after_samples-last_decisive, after_checks,
  is_even, after_checks-flip,
}

abbrev config : Config
config = record {
  enabled = true;
  reject_writes_percent = missing;
  max_rss_percent = missing;
  resume_writes_percent = given 7000;
  check_ms = null_value;
}

abbrev guard : Guard
guard = record {
  enabled = true;
  reject_writes_percent = 8500;
  resume_writes_percent = 7000;
  check_ms = 0;
  limit_bytes = 1000;
  accepting_writes = true;
  last_sample = none;
  last_sample_at = 0;
}

make_guard_example :
    (guard.resume_writes_percent ≤ guard.reject_writes_percent)
    × (guard.reject_writes_percent ≤ 10000)
    × (guard.accepting_writes ≡ true)
make_guard_example = make_guard-ordered config 1000 guard (unfold make_guard in refl)

after_samples_example :
    after_samples 8500 7000 true (8000 ∷ 8600 ∷ 8000 ∷ [])
    ≡ last_decisive 8500 7000 true (8000 ∷ 8600 ∷ 8000 ∷ [])
after_samples_example =
    after_samples-last_decisive 8500 7000 true (8000 ∷ 8600 ∷ 8000 ∷ []) (omega arith)

abbrev level_config : Config
level_config = record config { reject_writes_percent = given 5000; resume_writes_percent = missing }

abbrev level_guard : Guard
level_guard = record guard { reject_writes_percent = 5000; resume_writes_percent = 5000 }

-- three checks, with half of the memory in use at each
abbrev checks : List (ℕ × ℕ)
checks = (10, 500) ∷ (20, 500) ∷ (30, 500) ∷ []

after_checks_example : (after_checks checks level_guard).accepting_writes ≡ is_even (length checks)
after_checks_example =
    after_checks-flip level_config 5000 1000 level_guard checks refl refl refl (omega arith)
      (unfold make_guard in refl) (unfold rounded_percent in (refl, (refl, (refl, tt))))
