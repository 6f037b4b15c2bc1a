-- ===== src/Net/BackPressure/Waking.antt =====
-- No wake-up is lost, in any interleaving of the waiting future with the starts and the drops.
use heat_gun.Base.{ℕ, ◌<◌, ◌≡◌, Bool, true, false, not, ◌||◌, ltb, ◌⊎◌}
use heat_gun.Net.BackPressure.{
  non_negative, fetch_sub, Phase, unpolled, checked, published, ready, pending, Async, poll_first,
  publish, poll_second, drop_first, drop_second,
}

-- One atomic step of one of the threads. A start does not wrap around, a task is dropped in two
-- steps, and a poll, of three steps, begins in any phase but in its own middle.
pub data Step (a b : Async) : Type 0 where
  starting :
      (size : ℕ)
      → (non_negative a.pressure ≡ false → non_negative (fetch_sub size a.pressure) ≡ false)
      → b ≡ record a { pressure = fetch_sub size a.pressure }
      → Step a b
  polling_first : (a.phase ≡ unpolled) ⊎ (a.phase ≡ pending) → b ≡ poll_first a → Step a b
  publishing : a.phase ≡ checked → b ≡ publish a → Step a b
  polling_second : a.phase ≡ published → b ≡ poll_second a → Step a b
  dropping_first : (size : ℕ) → b ≡ drop_first size a → Step a b
  dropping_second : 0 < a.wakers → b ≡ drop_second a → Step a b

pub data Reach (a : Async) : Async → Type 0 where
  here : Reach a a
  next : {b c : Async} → Reach a b → Step b c → Reach a c

-- A waker that is published and was not woken stands there still; and a future that waits unwoken
-- waits for a pressure that is negative, or for a drop that is about to take its waker.
abbrev Waits : Phase → Bool → Bool → Bool → ℕ → Type 0
Waits unpolled there woken enough wakers = Unit
Waits checked there woken enough wakers = Unit
Waits published there woken enough wakers = (there || woken) ≡ true
Waits ready there woken enough wakers = Unit
Waits pending there woken enough wakers =
    ((there || woken) ≡ true) × ((woken || not enough || ltb 0 wakers) ≡ true)

abbrev pub Covered : Async → Type 0
Covered a = Waits a.phase a.published_waker a.notified (non_negative a.pressure) a.wakers
