-- ===== src/Ecs/Entity/Tree/Ancestry.antt =====
-- The search of `try_deep_get` along the ancestors of an entity.
use heat_gun.Base.{
  ℕ, zero, suc, ◌≤◌, ◌≡◌, refl, List, [], ◌∷◌, Option, none, some, arith, Map, length, Option-cases,
  inl, inr,
}
use heat_gun.Ecs.Entity.Tree.{EntityInfo, Entities, try_deep_get}

-- The entity and its ancestors, up to a root.
pub data Ancestry (m : Entities) : ℕ → List ℕ → Type 0 where
  top : {e : ℕ} (me : EntityInfo) → m e ≡ some me → me.parent ≡ none → Ancestry m e (e ∷ [])
  below :
      {e : ℕ} {es : List ℕ} (me : EntityInfo) (up : ℕ)
      → m e ≡ some me
      → me.parent ≡ some up
      → Ancestry m up es
      → Ancestry m e (e ∷ es)

-- The first of the entities that has the component.
unfoldable pub nearest : Map ℕ ℕ → List ℕ → Option ℕ
nearest component [] = none
nearest component (e ∷ es) = elim (component e) [
  | some obj ↦ some obj
  | none ↦ nearest component es
]

-- Where the line of ancestors of an entity ends at a root, `try_deep_get` ends after at most as
-- many rounds as the line is long, without a panic, with the component of the nearest entity of
-- the line that has one, and with none where no entity of it has one.
pub try_deep_get-nearest :
    (m : Entities) (component : Map ℕ ℕ) (entity fuel : ℕ) (line : List ℕ)
    → Ancestry m entity line
    → length line ≤ fuel
    → try_deep_get fuel component entity m ≡ some (nearest component line)
unfolding try_deep_get nearest
try_deep_get-nearest m component entity fuel [] a h = elim a [ ]
try_deep_get-nearest m component entity zero (e ∷ es) a h = absurd (ground arith)
try_deep_get-nearest m component entity (suc fuel) (_ ∷ _) (top me at root) h =
    elim (Option-cases (component entity)) [
      | inl e ↦ rw (try_deep_get, nearest, e, at, root) refl
      | inr (obj, e) ↦ rw (try_deep_get, nearest, e) refl
    ]
try_deep_get-nearest m component entity (suc fuel) (_ ∷ es) (below me up at p a) h =
    let ih = try_deep_get-nearest m component up fuel es a (ground arith) in
    elim (Option-cases (component entity)) [
      | inl e ↦ rw (try_deep_get, nearest, e, at, p) ih
      | inr (obj, e) ↦ rw (try_deep_get, nearest, e) refl
    ]
