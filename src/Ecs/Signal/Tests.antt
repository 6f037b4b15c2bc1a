-- ===== src/Ecs/Signal/Tests.antt =====
-- A signal with two events, and a run with a reader.
use heat_gun.Base.{◌≡◌, refl, true, [], ◌∷◌, none, some, arith, ◌>>=◌}
use heat_gun.Ecs.Signal.{DeferSignal, new, reset, fire_all, reader, freeze, iter}
use heat_gun.Ecs.Signal.Rounds.{reader-fire_all, Held, here, next, reading, Held-events}

reader-fire_all_example :
    (s' : DeferSignal) × ((reset new >>= fire_all (4 ∷ 5 ∷ [])) ≡ some s')
    × (reader (freeze s')
        ≡ some (4 ∷ 5 ∷ [], record { events = 4 ∷ 5 ∷ []; frozen = true; readers = 1 }))
    × (iter (freeze s') ≡ some (4 ∷ 5 ∷ []))
    × (reset (record { events = 4 ∷ 5 ∷ []; frozen = true; readers = 1 }) ≡ none)
unfolding new
reader-fire_all_example = reader-fire_all new (4 ∷ 5 ∷ []) refl

abbrev read_once : DeferSignal
read_once = record { events = 4 ∷ []; frozen = true; readers = 1 }

abbrev read_twice : DeferSignal
read_twice = record { events = 4 ∷ []; frozen = true; readers = 2 }

second_reader : Held read_once read_twice
unfolding reader
second_reader = next here (omega arith) (reading (4 ∷ []) refl)

Held-events_example : read_twice.events ≡ read_once.events
Held-events_example = Held-events read_once read_twice second_reader
