-- ===== src/Ecs/Signal.antt =====
-- src/engine/hg-ecs/src/signal.rs: a list of events that is filled, frozen, and then read by readers
-- that share it. `none` is a panic. The count is that of the readers that hold the shared list.
pub mod Rounds
mod Tests
use heat_gun.Base.{
  ℕ, zero, suc, ◌+◌, ◌-◌, Bool, true, false, not, List, [], ◌∷◌, ◌++◌, Option, none, some, ◌==◌,
  if◌then◌else◌, ◌>>=◌,
}

pub record DeferSignal : Type 0 where
  pub events : List ℕ
  pub frozen : Bool
  pub readers : ℕ

-- `DeferSignalReader`: the events that it sees.
abbrev pub DeferSignalReader : Type 0
DeferSignalReader = List ℕ

-- `DeferSignal::new`.
unfoldable pub new : DeferSignal
new = record { events = []; frozen = true; readers = 0 }

unfoldable pub reset : DeferSignal → Option DeferSignal
reset s = if s.readers == 0 then some (record s { events = []; frozen = false }) else none

unfoldable pub fire : ℕ → DeferSignal → Option DeferSignal
fire event s =
    if s.frozen
    then none
    else (if s.readers == 0 then some (record s { events = s.events ++ event ∷ [] }) else none)

unfoldable pub freeze : DeferSignal → DeferSignal
freeze s = record s { frozen = true }

unfoldable pub reader : DeferSignal → Option (DeferSignalReader × DeferSignal)
reader s = if s.frozen then some (s.events, record s { readers = s.readers + 1 }) else none

-- `iter`, which borrows the signal.
unfoldable pub iter : DeferSignal → Option (List ℕ)
iter s = if s.frozen then some s.events else none

-- A reader is dropped.
unfoldable pub drop_reader : DeferSignal → DeferSignal
drop_reader s = record s { readers = s.readers - 1 }

-- Several events are fired.
unfoldable pub fire_all : List ℕ → DeferSignal → Option DeferSignal
unfolding fire
fire_all [] s = some s
fire_all (e ∷ es) s = fire e s >>= fire_all es
