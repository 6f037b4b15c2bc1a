-- ===== src/Tile/Palette/Cache.antt =====
-- The cache answers as the palette and the component store would.
use heat_gun.Base.{
  ℕ, zero, suc, ◌+◌, ◌-◌, ◌<◌, ◌≡◌, refl, sym, ◌∙◌, false, [], ◌∷◌, ◌++◌, Option, none, some, arith,
  Map, length, get_elem?, set, replicate, ltb, ltb→lt, ◌==◌, ==_iff, ◌>>=◌, Bool-cases, inl, inr,
  get_elem?-of_lt, get_elem?-set_self, get_elem?-set_ne, length-append, length-replicate, ◌≢◌,
}
use mathlib.Core.Option.{some-injective}
use mathlib.Core.Bool.{false≢true}
use heat_gun.Tile.Palette.{TilePalette, lookup, Slots, grow, fill, cache_lookup}

-- The answer without a cache: the component of the descriptor.
abbrev pub resolve : Map ℕ ℕ → TilePalette → ℕ → Option ℕ
resolve component p id = lookup id p >>= component

-- A slot that is filled holds the answer.
pub record IsFaithful (component : Map ℕ ℕ) (p : TilePalette) (slots : Slots) : Type 0 where
  pub filled :
      (i item : ℕ) → get_elem? slots i ≡ some (some item) → resolve component p i ≡ some item

get_elem?-append_none :
    (xs : Slots) (n i item : ℕ)
    → get_elem? (xs ++ replicate n none) i ≡ some (some item)
    → get_elem? xs i ≡ some (some item)
get_elem?-append_none [] zero i item e = absurd (cc)
get_elem?-append_none [] (suc n) zero item e = absurd (cc)
get_elem?-append_none [] (suc n) (suc i) item e = get_elem?-append_none [] n i item e
get_elem?-append_none (x ∷ xs) n zero item e = e
get_elem?-append_none (x ∷ xs) n (suc i) item e = get_elem?-append_none xs n i item e

grow-IsFaithful :
    (component : Map ℕ ℕ) (p : TilePalette) (id : ℕ) (slots : Slots)
    → IsFaithful component p slots
    → IsFaithful component p (grow id slots) × (id < length (grow id slots))
unfolding grow
grow-IsFaithful component p id slots ok = elim (Bool-cases (ltb id (length slots))) [
  | inl h ↦ rw h (ok, ltb→lt id (length slots) h)
  | inr h ↦ rw h (
    record {
      filled = λ i item e.
          ok.filled i item (get_elem?-append_none slots (id + 1 - length slots) i item e);
    },
    rw
        (
          length-append slots (replicate (id + 1 - length slots) none),
          length-replicate {A = Option ℕ} (id + 1 - length slots) none,
        )
        (long (length slots) h),
  )
]
  where
    long : (n : ℕ) → ltb id n ≡ false → id < n + (id + 1 - n)
    long n h = ground arith

module _ (component : Map ℕ ℕ) (p : TilePalette) (id : ℕ) (slots : Slots)
    (faithful : IsFaithful component p (grow id slots)) where
  abbrev keep : ℕ → Option (ℕ × Slots)
  keep r = some (r, set (grow id slots) id (some r))

  resolved-IsFaithful :
      (item : ℕ)
      → id < length (grow id slots)
      → resolve component p id ≡ some item
      → IsFaithful component p (set (grow id slots) id (some item))
  resolved-IsFaithful item inside e = record {
    filled = λ i it at. elim (Bool-cases (id == i)) [
      | inl h ↦
          let same = (==_iff id i).0 h in
          let put = get_elem?-set_self (grow id slots) id (some item) inside in
          rw (← same) (e ∙ some-injective (some item) (some it) (sym put ∙ rw (← same) at at))
      | inr h ↦
          faithful.filled i it
            (sym (get_elem?-set_ne (grow id slots) id i (some item) (apart i h)) ∙ at)
    ];
  }
    where
      apart : (i : ℕ) → (id == i) ≡ false → id ≢ i
      apart i h g = false≢true (sym h ∙ (==_iff id i).1 g)

  fill_found :
      (slot : Option ℕ) (item : ℕ)
      → id < length (grow id slots)
      → get_elem? (grow id slots) id ≡ some slot
      → resolve component p id ≡ some item
      → (slots' : Slots) × (fill component p id (grow id slots) slot ≡ some (item, slots'))
        × IsFaithful component p slots'
  unfolding fill
  fill_found (some old) item inside at e =
      let same : old ≡ item = some-injective old item (sym (faithful.filled id old at) ∙ e) in
      (grow id slots, rw same refl, faithful)
  fill_found none item inside at e = (
    set (grow id slots) id (some item),
    stored (lookup id p) e,
    resolved-IsFaithful item inside e,
  )
    where
      stored :
          (o : Option ℕ)
          → (o >>= component) ≡ some item
          → (o >>= λ d. component d >>= keep) ≡ some (item, set (grow id slots) id (some item))
      stored (some d) h = rw h refl
      stored none h = absurd (cc)

  fill_missing :
      (slot : Option ℕ)
      → get_elem? (grow id slots) id ≡ some slot
      → resolve component p id ≡ none
      → fill component p id (grow id slots) slot ≡ none
  unfolding fill
  fill_missing (some old) at e = absurd (some_none (sym (faithful.filled id old at) ∙ e))
    where
      some_none : some old ≡ none → ⊥
      some_none e = cc
  fill_missing none at e = dropped (lookup id p) e
    where
      dropped : (o : Option ℕ) → (o >>= component) ≡ none → (o >>= λ d. component d >>= keep) ≡ none
      dropped (some d) h = rw h refl
      dropped none h = refl

-- On a faithful cache, a lookup gives what the palette and the component store give, a panic where
-- they panic, and leaves a faithful cache.
pub cache_lookup-IsFaithful :
    (component : Map ℕ ℕ) (p : TilePalette) (id : ℕ) (slots : Slots)
    → IsFaithful component p slots
    → ((item : ℕ)
        → resolve component p id ≡ some item
        → (slots' : Slots) × (cache_lookup component p id slots ≡ some (item, slots'))
          × IsFaithful component p slots')
      × (resolve component p id ≡ none → cache_lookup component p id slots ≡ none)
unfolding cache_lookup
cache_lookup-IsFaithful component p id slots ok =
    let (faithful, inside) = grow-IsFaithful component p id slots ok in
    let (slot, at) = get_elem?-of_lt (grow id slots) id inside in
    (
      (λ item e.
          let (slots', r, ok') = fill_found component p id slots faithful slot item inside at e in
          (slots', rw at r, ok')),
      λ e. rw at (fill_missing component p id slots faithful slot at e),
    )
