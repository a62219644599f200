-- ===== src/MemoryGuard/Hysteresis.antt =====
-- The two thresholds: between them the guard keeps its state.
use objy.Common.{
  ℕ, zero, suc, ◌≤◌, ◌<◌, ◌≡◌, refl, sym, ◌∙◌, subst, leb, ltb, min, Bool, true, false, not, none,
  some, List, [], ◌∷◌, if◌then◌else◌, length, All, arith, Option-cases, inl, inr,
}
use objy.MemoryGuard.{
  Guard, Config, missing, given, make_guard, next_accepting, rounded_percent, at_least_one,
  positive_int, take_sample, sample, status,
}

-- A guard that was made accepts writes, and its resume threshold is not above its reject threshold,
-- which is at most 100 %.
pub make_guard-ordered :
    (config : Config) (limit : ℕ) (g : Guard)
    → make_guard config limit ≡ some g
    → (g.resume_writes_percent ≤ g.reject_writes_percent)
      × (g.reject_writes_percent ≤ 10000)
      × (g.accepting_writes ≡ true)
unfolding make_guard
make_guard-ordered config limit g h = ground arith

-- the guard after the checks at which these percentages were measured
unfoldable pub after_samples : ℕ → ℕ → Bool → List ℕ → Bool
unfolding next_accepting
after_samples reject resume accepting [] = accepting
after_samples reject resume accepting (p ∷ ps) =
    after_samples reject resume (next_accepting reject resume accepting p) ps

-- what the last measurement outside of the band says, `default` where all were inside
unfoldable pub last_decisive : ℕ → ℕ → Bool → List ℕ → Bool
last_decisive reject resume default [] = default
last_decisive reject resume default (p ∷ ps) =
    last_decisive reject resume
      (if leb reject p then false else if leb p resume then true else default) ps

-- With the resume threshold below the reject threshold the guard follows the last measurement that
-- reached one of them: it refuses writes from the reject threshold up, and accepts them again from
-- the resume threshold down, and not in between.
pub after_samples-last_decisive :
    (reject resume : ℕ) (accepting : Bool) (ps : List ℕ)
    → resume < reject
    → after_samples reject resume accepting ps ≡ last_decisive reject resume accepting ps
unfolding after_samples last_decisive
after_samples-last_decisive reject resume accepting [] h = refl
after_samples-last_decisive reject resume accepting (p ∷ ps) h =
    let step : next_accepting reject resume accepting p
        ≡ (if leb reject p then false else if leb p resume then true else accepting) =
      ground arith in
    rw step (
      after_samples-last_decisive reject resume
        (if leb reject p then false else if leb p resume then true else accepting) ps h)

-- the guard after forced checks, each with its time and the memory in use
unfoldable pub after_checks : List (ℕ × ℕ) → Guard → Guard
unfolding status
after_checks [] g = g
after_checks ((now, rss) ∷ checks) g = after_checks checks (status true now rss g).1

-- a guard that is on, with both thresholds at `p`
record IsLevel (p limit : ℕ) (g : Guard) : Type 0 where
  enabled : g.enabled ≡ true
  reject : g.reject_writes_percent ≡ p
  resume : g.resume_writes_percent ≡ p
  limit_bytes : g.limit_bytes ≡ limit

-- a forced check takes a sample, and decides by it
status-forced :
    (now rss : ℕ) (g : Guard)
    → g.enabled ≡ true
    → (status true now rss g).1 ≡ record (take_sample now rss g).1 {
      accepting_writes =
          next_accepting g.reject_writes_percent g.resume_writes_percent g.accepting_writes
            (rounded_percent rss (at_least_one g.limit_bytes));
    }
unfolding status sample take_sample
status-forced now rss g e = elim (Option-cases g.last_sample) [
  | inl n ↦ rw (n, e) refl
  | inr (s, n) ↦ rw (n, e) refl
]

next_accepting-level : (p : ℕ) (b : Bool) → next_accepting p p b p ≡ not b
unfolding next_accepting
next_accepting-level p b = ground arith

status-IsLevel :
    (p limit now rss : ℕ) (g : Guard)
    → IsLevel p limit g
    → rounded_percent rss (at_least_one limit) ≡ p
    → IsLevel p limit (status true now rss g).1
      × ((status true now rss g).1.accepting_writes ≡ not g.accepting_writes)
unfolding take_sample
status-IsLevel p limit now rss g h e = rw (status-forced now rss g h.enabled) (
  record { enabled = h.enabled; reject = h.reject; resume = h.resume; limit_bytes = h.limit_bytes },
  rw (h.reject, h.resume, h.limit_bytes, e) (next_accepting-level p g.accepting_writes),
)

abbrev pub is_even : ℕ → Bool
is_even zero = true
is_even (suc n) = not (is_even n)

after_checks-level :
    (p limit : ℕ) (checks : List (ℕ × ℕ)) (g : Guard)
    → IsLevel p limit g
    → All (λ (c : ℕ × ℕ). rounded_percent c.1 (at_least_one limit) ≡ p) checks
    → (after_checks checks g).accepting_writes
      ≡ (if is_even (length checks) then g.accepting_writes else not g.accepting_writes)
unfolding after_checks
after_checks-level p limit [] g h a = refl
after_checks-level p limit ((now, rss) ∷ checks) g h a =
    let (level, flipped) = status-IsLevel p limit now rss g h a.0 in
    rw (after_checks-level p limit checks (status true now rss g).1 level a.1) (ground arith)

-- the guard that is made of such a configuration
abbrev level_guard : Config → ℕ → ℕ → Guard
level_guard config p limit = record {
  enabled = config.enabled;
  reject_writes_percent = p;
  resume_writes_percent = p;
  check_ms = positive_int config.check_ms 1000;
  limit_bytes = limit;
  accepting_writes = true;
  last_sample = none;
  last_sample_at = 0;
}

make_guard-level :
    (config : Config) (p limit : ℕ)
    → config.reject_writes_percent ≡ given p
    → config.resume_writes_percent ≡ missing
    → p ≤ 7800
    → make_guard config limit ≡ some (level_guard config p limit)
unfolding make_guard
make_guard-level config p limit reject resume low =
    let within : leb p 10000 ≡ true = ground arith in
    let capped : min 7800 p ≡ p = omega arith in
    let apart : ltb p p ≡ false = ground arith in rw (reject, resume, within, capped, apart) refl

same_guard : {g h : Guard} → some g ≡ some h → g ≡ h
same_guard e = cc

made-IsLevel :
    (config : Config) (p limit : ℕ) (g : Guard)
    → config.enabled ≡ true
    → config.reject_writes_percent ≡ given p
    → config.resume_writes_percent ≡ missing
    → p ≤ 7800
    → make_guard config limit ≡ some g
    → IsLevel p limit g × (g.accepting_writes ≡ true)
made-IsLevel config p limit g on reject resume low made =
    subst (λ h. IsLevel p limit h × (h.accepting_writes ≡ true))
      (same_guard (sym (make_guard-level config p limit reject resume low) ∙ made))
      (record { enabled = on; reject = refl; resume = refl; limit_bytes = refl }, refl)

-- A guard whose reject threshold is set to 78 % or less, and whose resume threshold is not set,
-- changes its state at every forced check while the measured percentage stays at the reject
-- threshold: after any number of such checks it accepts writes where that number is even, and
-- refuses them where it is odd.
pub after_checks-flip :
    (config : Config) (p limit : ℕ) (g : Guard) (checks : List (ℕ × ℕ))
    → config.enabled ≡ true
    → config.reject_writes_percent ≡ given p
    → config.resume_writes_percent ≡ missing
    → p ≤ 7800
    → make_guard config limit ≡ some g
    → All (λ (c : ℕ × ℕ). rounded_percent c.1 (at_least_one limit) ≡ p) checks
    → (after_checks checks g).accepting_writes ≡ is_even (length checks)
after_checks-flip config p limit g checks on reject resume low made a =
    let (level, accepts) = made-IsLevel config p limit g on reject resume low made in
    rw (after_checks-level p limit checks g level a, accepts) (ground arith)
