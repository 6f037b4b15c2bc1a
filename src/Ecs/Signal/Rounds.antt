-- ===== src/Ecs/Signal/Rounds.antt =====
-- One round of a signal, and what a reader may rely on.
use heat_gun.Base.{
  ℕ, ◌+◌, ◌<◌, ◌≡◌, refl, sym, ap, ◌∙◌, Bool, true, false, List, [], ◌∷◌, ◌++◌, Option, none, some,
  append_assoc, gt→ne, is_some, if◌then◌else◌, ◌>>=◌,
}
use mathlib.Core.Bool.{false≢true}
use mathlib.Core.Option.{some-injective}
use heat_gun.Ecs.Signal.{
  DeferSignal, DeferSignalReader, reset, fire, freeze, reader, iter, drop_reader, fire_all,
}

fire_all_lem :
    (es old : List ℕ)
    → fire_all es (record { events = old; frozen = false; readers = 0 })
      ≡ some (record { events = old ++ es; frozen = false; readers = 0 })
unfolding fire_all fire
fire_all_lem [] old = rw (append_nil old) refl
  where
    append_nil : (xs : List ℕ) → xs ++ [] ≡ xs
    append_nil [] = refl
    append_nil (x ∷ xs) = ap (λ t. x ∷ t) (append_nil xs)
fire_all_lem (e ∷ es) old =
    fire_all_lem es (old ++ e ∷ [])
    ∙ ap (λ xs. some (record { events = xs; frozen = false; readers = 0 }))
        (append_assoc old (e ∷ []) es)

-- A signal that no reader holds can be reset, filled with any events and frozen; a reader then sees
-- exactly those events in their order, and a signal that is held is reset only by a panic.
pub reader-fire_all :
    (s : DeferSignal) (es : List ℕ)
    → s.readers ≡ 0
    → (s' : DeferSignal) × ((reset s >>= fire_all es) ≡ some s')
      × (reader (freeze s') ≡ some (es, record { events = es; frozen = true; readers = 1 }))
      × (iter (freeze s') ≡ some es)
      × (reset (record { events = es; frozen = true; readers = 1 }) ≡ none)
unfolding reset reader freeze iter
reader-fire_all s es free = (
  record { events = es; frozen = false; readers = 0 },
  rw (free) (fire_all_lem es []),
  refl,
  refl,
  refl,
)

-- What the holders of a signal can do to it.
pub data Step (s t : DeferSignal) : Type 0 where
  resetting : reset s ≡ some t → Step s t
  firing : (e : ℕ) → fire e s ≡ some t → Step s t
  freezing : freeze s ≡ t → Step s t
  reading : (r : DeferSignalReader) → reader s ≡ some (r, t) → Step s t
  dropping : drop_reader s ≡ t → Step s t

-- A run in which one reader is held from the first state to the last.
pub data Held (s : DeferSignal) : DeferSignal → Type 0 where
  here : Held s s
  next : {t u : DeferSignal} → Held s t → 0 < t.readers → Step t u → Held s u

Step-events : (s t : DeferSignal) → Step s t → 0 < s.readers → t.events ≡ s.events
unfolding reset fire freeze reader drop_reader
Step-events s t (resetting e) h = absurd (false≢true (ap is_some (rw (gt→ne s.readers 0 h) at e)))
Step-events s t (firing x e) h = absurd (silent s.frozen (rw (gt→ne s.readers 0 h) at e))
  where
    silent : (b : Bool) → (if b then none else none) ≡ some t → ⊥
    silent true e = cc
    silent false e = cc
Step-events s t (freezing e) h = sym (ap (λ (x : DeferSignal). x.events) e)
Step-events s t (reading r e) h = unread s.frozen e
  where
    unread :
        (b : Bool)
        → if◌then◌else◌ {A = Option (DeferSignalReader × DeferSignal)} b
            (some (s.events, record s { readers = s.readers + 1 }))
            none
          ≡ some (r, t)
        → t.events ≡ s.events
    unread true e =
        sym (ap (λ (x : DeferSignalReader × DeferSignal). x.1.events) (some-injective _ _ e))
    unread false e = absurd (cc)
Step-events s t (dropping e) h = sym (ap (λ (x : DeferSignal). x.events) e)

-- While a reader is held, no operation that returns changes the events, whoever runs it.
pub Held-events : (s t : DeferSignal) → Held s t → t.events ≡ s.events
Held-events s t here = refl
Held-events s t (next {t = u} run held step) = Step-events u t step held ∙ Held-events s u run
