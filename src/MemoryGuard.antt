-- ===== src/MemoryGuard.antt =====
-- src/memory-guard.js: the guard that refuses writes while memory is short. Percentages are in
-- hundredths of a percent, which is the precision of `rssPercent`; the memory limit, the clock and
-- the memory usage are arguments.
pub mod Hysteresis
use objy.Common.{
  ℕ, ◌+◌, ◌-◌, ◌*◌, ◌/◌, ltb, leb, min, Bool, true, false, not, ◌&&◌, Option, none, some,
  if◌then◌else◌, get_or,
}

pub record Sample : Type 0 where
  pub rss : ℕ
  pub limit_bytes : ℕ
  pub rss_percent : ℕ

pub record Guard : Type 0 where
  pub enabled : Bool
  pub reject_writes_percent : ℕ
  pub resume_writes_percent : ℕ
  pub check_ms : ℕ
  pub limit_bytes : ℕ
  pub accepting_writes : Bool
  pub last_sample : Option Sample
  pub last_sample_at : ℕ

-- a value of the configuration: missing is undefined, and what Number turns into no number from 0
-- up is other
pub data Setting : Type 0 where
  missing null_value other : Setting
  given : ℕ → Setting

pub record Config : Type 0 where
  pub enabled : Bool
  pub reject_writes_percent : Setting
  pub max_rss_percent : Setting
  pub resume_writes_percent : Setting
  pub check_ms : Setting

pub record Status : Type 0 where
  pub enabled : Bool
  pub accepting_writes : Bool
  pub sample : Sample

-- `a ?? b`
abbrev pub setting_or : Setting → Setting → Setting
setting_or missing s = s
setting_or null_value s = s
setting_or other s = other
setting_or (given n) s = given n

-- percent(value, fallback)
abbrev pub percent : Setting → ℕ → ℕ
percent missing fallback = fallback
percent null_value fallback = 0
percent other fallback = fallback
percent (given p) fallback = if leb p 10000 then p else fallback

-- positiveInt(value, fallback)
abbrev pub positive_int : Setting → ℕ → ℕ
positive_int missing fallback = fallback
positive_int null_value fallback = 0
positive_int other fallback = fallback
positive_int (given n) fallback = n

-- the constructor; none where it throws
unfoldable pub make_guard : Config → ℕ → Option Guard
make_guard config limit =
    let reject = percent (setting_or config.reject_writes_percent config.max_rss_percent) 8500 in
    let resume = percent config.resume_writes_percent (min 7800 reject) in
    if ltb reject resume
    then none
    else some (record {
      enabled = config.enabled;
      reject_writes_percent = reject;
      resume_writes_percent = resume;
      check_ms = positive_int config.check_ms 1000;
      limit_bytes = limit;
      accepting_writes = true;
      last_sample = none;
      last_sample_at = 0;
    })

-- `Math.round((rss / limit) * 10_000)`: halves are rounded up
unfoldable pub rounded_percent : ℕ → ℕ → ℕ
rounded_percent rss limit = (2 * (rss * 10000) + limit) / (2 * limit)

abbrev pub at_least_one : ℕ → ℕ
at_least_one n = if ltb 0 n then n else 1

-- a new sample
unfoldable pub take_sample : ℕ → ℕ → Guard → Sample × Guard
unfolding rounded_percent
take_sample now rss g =
    let limit = at_least_one g.limit_bytes in
    let s : Sample = record {
      rss = rss;
      limit_bytes = limit;
      rss_percent = rounded_percent rss limit;
    } in
    (s, record g { last_sample = some s; last_sample_at = now })

-- _sample(force)
unfoldable pub sample : Bool → ℕ → ℕ → Guard → Sample × Guard
unfolding take_sample
sample force now rss g = elim g.last_sample [
  | none ↦ take_sample now rss g
  | some s ↦
      if not force && ltb (now - g.last_sample_at) g.check_ms then (s, g) else take_sample now rss g
]

-- whether writes are accepted after a sample
unfoldable pub next_accepting : ℕ → ℕ → Bool → ℕ → Bool
next_accepting reject resume accepting p =
    if accepting && leb reject p
    then false
    else if not accepting && leb p resume
    then true
    else accepting

-- status({ force })
unfoldable pub status : Bool → ℕ → ℕ → Guard → Status × Guard
unfolding sample next_accepting
status force now rss g =
    let (s, g') = sample force now rss g in
    if not g.enabled
    then (record { enabled = false; accepting_writes = true; sample = s }, g')
    else let a =
        next_accepting g'.reject_writes_percent g'.resume_writes_percent g'.accepting_writes
          s.rss_percent in
      (
        record { enabled = true; accepting_writes = a; sample = s },
        record g' { accepting_writes = a },
      )

-- writeRejection(): the sample of the refusal, if there is one
unfoldable pub write_rejection : ℕ → ℕ → Guard → Option Sample × Guard
unfolding status
write_rejection now rss g =
    let (s, g') = status true now rss g in (if s.accepting_writes then none else some s.sample, g')
