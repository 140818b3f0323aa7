-- ===== src/Pages/Clock.antt =====
-- `add_time_diff` of block_compressor.c. The clock does not go back, so that only the nanoseconds can be
-- below those of the start.
use csnappy.Common.{ℕ, ◌+◌, ◌-◌, ◌*◌, ◌≤◌, ◌<◌, ◌≡◌, arith, ltb, if◌then◌else◌}

pub record Time : Type 0 where
  pub tv_sec : ℕ
  pub tv_nsec : ℕ

abbrev pub one_billion : ℕ
one_billion = 1000000000

-- `end` less `start`, and the sum with `total`.
unfoldable pub add_time_diff : Time → Time → Time → Time
add_time_diff total start end =
    let borrow = ltb end.tv_nsec start.tv_nsec in
    let sec =
      total.tv_sec
      + (if borrow then end.tv_sec - start.tv_sec - 1 else end.tv_sec - start.tv_sec) in
    let nsec =
      total.tv_nsec
      + (if borrow
          then end.tv_nsec + one_billion - start.tv_nsec
          else end.tv_nsec - start.tv_nsec) in
    if ltb one_billion nsec
    then record { tv_sec = sec + 1; tv_nsec = nsec - one_billion }
    else record { tv_sec = sec; tv_nsec = nsec }

-- A time in nanoseconds.
abbrev pub nanoseconds : Time → ℕ
nanoseconds t = t.tv_sec * one_billion + t.tv_nsec

-- For a clock that does not go back, with nanoseconds below a billion, and a total of at most a billion
-- nanoseconds besides its seconds: the total grows by the time that has passed, and keeps at most a
-- billion nanoseconds besides its seconds.
pub nanoseconds-add_time_diff :
    (total start end : Time)
    → start.tv_nsec < one_billion
    → end.tv_nsec < one_billion
    → total.tv_nsec ≤ one_billion
    → nanoseconds start ≤ nanoseconds end
    → (nanoseconds (add_time_diff total start end)
        ≡ nanoseconds total + (nanoseconds end - nanoseconds start))
      × ((add_time_diff total start end).tv_nsec ≤ one_billion)
unfolding add_time_diff
nanoseconds-add_time_diff total start end s e t later = ground arith
