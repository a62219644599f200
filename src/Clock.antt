-- ===== src/Clock.antt =====
-- src/clock.js: Lamport clocks with the node id as the tie-breaker.
pub mod Order
use objy.Common.{ℕ, ◌+◌, Bool, true, false, Option, none, some, ltb, ◌==◌, if◌then◌else◌}
use objy.Common.Text.{Text, text_gt}

-- { c, n }
pub record Ts : Type 0 where
  pub c : ℕ
  pub n : Text

-- makeClock(id): the counter starts at 0
pub make_clock : Text → Ts
make_clock id = record { c = 0; n = id }

-- nextTs(clock): the advanced clock, and the timestamp it hands out
pub next_ts : Ts → Ts × Ts
next_ts clock =
    let clock' : Ts = record clock { c = clock.c + 1 } in
    (clock', record { c = clock'.c; n = clock.n })

-- touch(clock, ts)
pub touch : Ts → Option Ts → Ts
touch clock none = clock
touch clock (some ts) = if ltb clock.c ts.c then record clock { c = ts.c } else clock

-- gt on two timestamps: the counters first, then the node ids
unfoldable pub ts_gt : Ts → Ts → Bool
ts_gt a b = if a.c == b.c then text_gt a.n b.n else ltb b.c a.c

-- gt(a, b): a missing first argument wins, a missing second argument loses
unfoldable pub gt : Option Ts → Option Ts → Bool
unfolding ts_gt
gt none b = true
gt (some a) none = true
gt (some a) (some b) = ts_gt a b
