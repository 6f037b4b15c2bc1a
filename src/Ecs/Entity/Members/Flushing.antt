-- ===== src/Ecs/Entity/Members/Flushing.antt =====
-- All move requests of a flush.
use heat_gun.Base.{ℕ, ◌≡◌, true, List, [], ◌∷◌, none, Map, empty_map, insert, nat_key, is_some}
use heat_gun.Ecs.Entity.Tree.{Entities}

-- `reshaped_entities`, of its entries in the order in which they are drained.
abbrev pub requests_of : List (ℕ × ℕ) → Map ℕ ℕ
requests_of [] = empty_map
requests_of ((entity, old) ∷ rest) = insert entity old (requests_of rest)

-- Each entity is asked for once, and is alive.
abbrev pub Requested : Entities → List (ℕ × ℕ) → Type 0
Requested m [] = Unit
Requested m ((entity, old) ∷ rest) =
    (requests_of rest entity ≡ none) × (is_some (m entity) ≡ true) × Requested m rest
