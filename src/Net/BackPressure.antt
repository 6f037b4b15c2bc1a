-- ===== src/Net/BackPressure.antt =====
-- src/engine/hg-engine-common/src/net/back_pressure.rs: counters of what may still be sent. An
-- `isize` is its 64-bit word; it is negative from 2 ^ 63 on. `none` is a panic.
pub mod Counting
pub mod Waking
mod Tests
use heat_gun.Base.{
  ℕ, zero, suc, ◌+◌, ◌-◌, ◌%◌, ◌^◌, Bool, true, false, not, ◌&&◌, ◌||◌, List, [], ◌∷◌, Option, none,
  some, ltb, leb, if◌then◌else◌, ◌>>=◌,
}

abbrev pub word_end : ℕ
word_end = 2 ^ 64

abbrev pub sign_end : ℕ
sign_end = 2 ^ 63

-- `isize::try_from`, of a `usize`.
unfoldable pub to_isize : ℕ → Option ℕ
to_isize n = if ltb n sign_end then some n else none

-- The word is not negative.
unfoldable pub non_negative : ℕ → Bool
non_negative word = ltb word sign_end

-- `fetch_sub` and `fetch_add`, which wrap around.
unfoldable pub fetch_sub : ℕ → ℕ → ℕ
fetch_sub size word = (word + (word_end - size)) % word_end

unfoldable pub fetch_add : ℕ → ℕ → ℕ
fetch_add size word = (word + size) % word_end

-- `BackPressureSync::new`.
unfoldable pub new : ℕ → Option ℕ
unfolding to_isize
new capacity = to_isize capacity

-- `can_send`.
unfoldable pub can_send : ℕ → Bool
unfolding non_negative
can_send pressure = non_negative pressure

-- What `BackPressureSync::start` returns: a task with its size, or the violation.
pub data Started : Type 0 where
  task : ℕ → Started
  violated : Started

-- `BackPressureSync::start`.
unfoldable pub start : ℕ → ℕ → Option (Started × ℕ)
unfolding to_isize non_negative fetch_sub
start size pressure = do
  size_signed ← to_isize size
  some (if non_negative pressure then task size else violated, fetch_sub size_signed pressure)

-- `BackPressureSyncTask::drop`.
unfoldable pub drop_task : ℕ → ℕ → ℕ
unfolding fetch_add
drop_task size pressure = fetch_add size pressure

-- Where the future of `BackPressureAsync::wait` stands in a poll: before it, after the hot path,
-- after the waker is published, and returned as ready or pending.
pub data Phase : Type 0 where
  unpolled checked published ready pending : Phase

-- `BackPressureAsync` with one waiting future. `published_waker` says that `waker_data` is not null;
-- `notified` that the waker was woken since it was published; `wakers` counts the dropped tasks that
-- have lifted the pressure and have not yet taken the waker.
pub record Async : Type 0 where
  pub pressure : ℕ
  pub published_waker : Bool
  pub notified : Bool
  pub wakers : ℕ
  pub phase : Phase

-- `BackPressureAsync::start`.
unfoldable pub start_async : ℕ → Async → Option Async
unfolding to_isize fetch_sub
start_async size a = do
  size_signed ← to_isize size
  some (record a { pressure = fetch_sub size_signed a.pressure })

-- The hot path of the poll, behind which the previous waker is taken back and destroyed. Where
-- `wait` returns, its guard takes the waker back.
unfoldable pub poll_first : Async → Async
unfolding non_negative
poll_first a =
    if non_negative a.pressure
    then record a { published_waker = false; phase = ready }
    else record a { published_waker = false; phase = checked }

-- The publication of the waker.
unfoldable pub publish : Async → Async
publish a = record a { published_waker = true; notified = false; phase = published }

-- The second check of the poll, behind the fence.
unfoldable pub poll_second : Async → Async
unfolding non_negative
poll_second a =
    if non_negative a.pressure
    then record a { published_waker = false; phase = ready }
    else record a { phase = pending }

-- The first part of `BackPressureAsyncTask::drop`: the pressure, and whether the drop goes on.
unfoldable pub drop_first : ℕ → Async → Async
unfolding fetch_add non_negative
drop_first size a = record a {
  pressure = fetch_add size a.pressure;
  wakers =
      if non_negative a.pressure || not (non_negative (fetch_add size a.pressure))
      then a.wakers
      else a.wakers + 1;
}

-- The second part: it takes the waker, if there is one, and wakes it.
unfoldable pub drop_second : Async → Async
drop_second a = record a {
  published_waker = false;
  notified = a.notified || a.published_waker;
  wakers = a.wakers - 1;
}
