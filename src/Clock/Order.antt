-- ===== src/Clock/Order.antt =====
-- `gt` of src/clock.js on two timestamps is a strict total order; the clocks hand out fresh ones.
use objy.Common.{◌+◌, ◌≤◌, ◌≡◌, refl, true, false, some, arith}
use objy.Common.Text.{text_gt_irrefl, text_gt_trans, text_gt_total, text_gt_asym}
use objy.Clock.{Ts, next_ts, touch, ts_gt, gt}

pub ts_gt_irrefl : (a : Ts) → ts_gt a a ≡ false
unfolding ts_gt
ts_gt_irrefl a = ground (arith, text_gt_irrefl a.n)

pub ts_gt_trans : (a b c : Ts) → ts_gt a b ≡ true → ts_gt b c ≡ true → ts_gt a c ≡ true
unfolding ts_gt
ts_gt_trans a b c h k = ground (arith, text_gt_trans a.n b.n c.n)

pub ts_gt_asym : (a b : Ts) → ts_gt a b ≡ true → ts_gt b a ≡ false
unfolding ts_gt
ts_gt_asym a b h = ground (arith, text_gt_asym a.n b.n)

-- Timestamps of which neither is newer are the same timestamp.
pub ts_gt_total : (a b : Ts) → ts_gt a b ≡ false → ts_gt b a ≡ false → a ≡ b
unfolding ts_gt
ts_gt_total a b h k = ground (arith, text_gt_total a.n b.n)

-- What loses to something that does not beat `c` does not beat `c` either.
pub ts_gt_weaken : (a b c : Ts) → ts_gt a b ≡ true → ts_gt a c ≡ false → ts_gt b c ≡ false
ts_gt_weaken a b c h k = ground (arith, ts_gt_trans a b c)

pub gt-some : (a b : Ts) → gt (some a) (some b) ≡ ts_gt a b
unfolding gt
gt-some a b = refl

-- A local timestamp is newer than every timestamp that the clock has seen.
pub next_ts-newest :
    (clock : Ts) (seen : Ts) → seen.c ≤ clock.c → ts_gt (next_ts clock).1 seen ≡ true
unfolding ts_gt next_ts
next_ts-newest clock seen h = ground arith

pub touch-le : (clock ts : Ts) → clock.c ≤ (touch clock (some ts)).c
unfolding touch
touch-le clock ts = ground arith

pub touch-seen : (clock ts : Ts) → ts.c ≤ (touch clock (some ts)).c
unfolding touch
touch-seen clock ts = ground arith

pub next_ts-count :
    (clock : Ts) → ((next_ts clock).0.c ≡ clock.c + 1) × ((next_ts clock).1.c ≡ clock.c + 1)
unfolding next_ts
next_ts-count clock = (refl, refl)
