-- ===== src/Net/BackPressure/Tests.antt =====
-- A counter of capacity 10, and an interleaving in which a waiting future is woken.
use heat_gun.Base.{ℕ, ◌-◌, ◌≡◌, true, false, some, arith, if◌then◌else◌, leb}
use heat_gun.Net.BackPressure.{
  word_end, task, violated, start, drop_task, can_send, Async, unpolled, poll_first, publish,
  poll_second, drop_first, drop_second,
}
use heat_gun.Net.BackPressure.Counting.{Ledger, Agrees, booked, start-Agrees, can_send-refused}

-- 12 of 10 are taken, and 3 were refused.
abbrev overdrawn : Ledger
overdrawn = record { capacity = 10; held = 12; refused = 3 }

abbrev pressure_overdrawn : ℕ
pressure_overdrawn = word_end - 5

overdrawn-Agrees : Agrees overdrawn pressure_overdrawn
overdrawn-Agrees = record {
  word = omega arith;
  capacity_fits = omega arith;
  taken_fits = omega arith;
}

start-Agrees_example :
    (pressure' : ℕ) × (start 4 pressure_overdrawn
      ≡ some (if leb 15 10 then task 4 else violated, pressure'))
    × Agrees (booked 4 overdrawn) pressure'
start-Agrees_example =
    start-Agrees overdrawn pressure_overdrawn 4 overdrawn-Agrees (omega arith) (omega arith)

can_send-refused_example : can_send (drop_task 12 pressure_overdrawn) ≡ true
can_send-refused_example =
    can_send-refused overdrawn pressure_overdrawn overdrawn-Agrees (omega arith)

abbrev idle : Async
idle = record {
  pressure = pressure_overdrawn;
  published_waker = false;
  notified = false;
  wakers = 0;
  phase = unpolled;
}

abbrev parked : Async
parked = poll_second (publish (poll_first idle))

abbrev woken : Async
woken = drop_second (drop_first 6 parked)
