-- ===== src/Tile/Map/Access.antt =====
-- Reading and writing one tile.
use heat_gun.Base.{
  ℕ, zero, suc, ◌+◌, ◌-◌, ◌<◌, ◌≡◌, refl, sym, ap, ◌∙◌, false, List, [], ◌∷◌, some, arith,
  get_elem?, set, length, length-set, get_elem?-set_self, get_elem?-set_ne, get_elem?-of_lt, ◌==◌,
  ==_iff, if◌then◌else◌, Bool-cases, inl, inr, ◌≢◌,
}
use mathlib.Core.Bool.{false≢true}
use mathlib.Core.Option.{some-injective}
use heat_gun.Tile.Map.{
  IVec2, vec_eq, chunk_of, rel_of, TileChunk, TileMap, default_map, load_chunk, get, put, set_cell,
  solid,
}
use heat_gun.Tile.Map.Position.{rel_of-lt, vec_eq-split, vec_eq_refl}
use heat_gun.Tile.Map.View.{
  count, IsChunk, IsValid, chunk_at, tile_at, load_chunk-IsValid, default-IsChunk,
}

-- A new map is valid.
pub default_map-IsValid : IsValid default_map
unfolding default_map
default_map-IsValid = record {
  current = default-IsChunk;
  stored = λ c d e. absurd (cc);
  own = refl;
}

count-set :
    (ts : List ℕ) (i t cell : ℕ)
    → get_elem? ts i ≡ some cell
    → count (set ts i t) + solid cell ≡ count ts + solid t
count-set [] i t cell e = absurd (cc)
count-set (x ∷ ts) zero t cell e =
    let same : x ≡ cell = some-injective x cell e in
    rw same (add_swap (solid t) (count ts) (solid cell))
  where
    add_swap : (a b c : ℕ) → a + b + c ≡ c + b + a
    add_swap a b c = omega arith
count-set (x ∷ ts) (suc i) t cell e =
    let ih = count-set ts i t cell e in
    shift (solid x) (count (set ts i t)) (solid cell) (count ts) (solid t) ih
  where
    shift : (a b c d f : ℕ) → b + c ≡ d + f → (a + b) + c ≡ (a + d) + f
    shift a b c d f h = omega arith

set_cell-IsChunk :
    (c : TileChunk) (i t : ℕ)
    → IsChunk c
    → i < 256
    → (d : TileChunk) × (set_cell i t c ≡ some d) × IsChunk d × (d.cells ≡ set c.cells i t)
unfolding set_cell
set_cell-IsChunk c i t ok h =
    let (cell, e) = get_elem?-of_lt c.cells i (rw ok.0 h) in
    (
      record { solid_num = c.solid_num + solid t - solid cell; cells = set c.cells i t },
      rw e refl,
      (
        length-set c.cells i t ∙ ok.0,
        rw ok.1 (
            cancel (count c.cells) (solid t) (solid cell) (count (set c.cells i t))
              (count-set c.cells i t cell e)),
      ),
      refl,
    )
  where
    cancel : (a b c d : ℕ) → d + c ≡ a + b → a + b - c ≡ d
    cancel a b c d h = omega arith

module _ (m : TileMap) (p : IVec2) (v : IsValid m) where
  abbrev loaded : TileMap
  loaded = load_chunk (chunk_of p) m

  at_hand : (chunk_at loaded (chunk_of p)).cells ≡ loaded.curr_chunk_data.cells
  at_hand =
      let (i, e, same) = load_chunk-IsValid m (chunk_of p) v in
      rw (e, vec_eq_refl (chunk_of p)) refl

  same_tiles : (q : IVec2) → tile_at loaded q ≡ tile_at m q
  same_tiles q =
      let (i, e, same) = load_chunk-IsValid m (chunk_of p) v in
      ap (λ cells. get_elem? cells (rel_of q)) (same (chunk_of q))

  -- On a valid map, `get` does not panic, yields the tile at the position, keeps the map valid, and
  -- changes no tile.
  pub get-IsValid :
      (t : ℕ) × (m' : TileMap) × (get p m ≡ some (t, m'))
      × (tile_at m p ≡ some t)
      × IsValid m'
      × ((q : IVec2) → tile_at m' q ≡ tile_at m q)
  unfolding get
  get-IsValid =
      let (i, e, same) = load_chunk-IsValid m (chunk_of p) v in
      let (t, g) =
        get_elem?-of_lt loaded.curr_chunk_data.cells (rel_of p) (rw i.current.0 (rel_of-lt p)) in
      (
        t,
        loaded,
        rw g refl,
        sym (same_tiles p) ∙ ap (λ cells. get_elem? cells (rel_of p)) at_hand ∙ g,
        i,
        same_tiles,
      )

  written :
      (t : ℕ) (d : TileChunk) (q : IVec2)
      → d.cells ≡ set loaded.curr_chunk_data.cells (rel_of p) t
      → tile_at (record loaded { curr_chunk_data = d }) q
        ≡ (if vec_eq p q then some t else tile_at m q)
  written t d q cells =
      let (i, e, same) = load_chunk-IsValid m (chunk_of p) v in
      let before = same_tiles q in
      let inside : rel_of p < length loaded.curr_chunk_data.cells = rw i.current.0 (rel_of-lt p) in
      elim (Bool-cases (vec_eq (chunk_of p) (chunk_of q))) [
        | inl h ↦ elim (Bool-cases (rel_of p == rel_of q)) [
          | inl g ↦
              rw (vec_eq-split p q, h, g, e, h, cells, ← (==_iff (rel_of p) (rel_of q)).0 g)
                (get_elem?-set_self loaded.curr_chunk_data.cells (rel_of p) t inside)
          | inr g ↦
              rw (vec_eq-split p q, h, g, e, h, cells)
                (get_elem?-set_ne loaded.curr_chunk_data.cells (rel_of p) (rel_of q) t (apart g)
                  ∙ (rw (e, h) at before))
        ]
        | inr h ↦ rw (vec_eq-split p q, h, e, h) (rw (e, h) at before)
      ]
    where
      apart : (rel_of p == rel_of q) ≡ false → rel_of p ≢ rel_of q
      apart g e = false≢true (sym g ∙ (==_iff (rel_of p) (rel_of q)).1 e)

  -- On a valid map, `set` does not panic, keeps the map valid, and changes the tile at the position
  -- alone, to the one given.
  pub put-IsValid :
      (t : ℕ)
      → (m' : TileMap) × (put p t m ≡ some m')
        × IsValid m'
        × ((q : IVec2) → tile_at m' q ≡ (if vec_eq p q then some t else tile_at m q))
  unfolding put
  put-IsValid t =
      let (i, e, same) = load_chunk-IsValid m (chunk_of p) v in
      let (d, r, ok, cells) =
        set_cell-IsChunk loaded.curr_chunk_data (rel_of p) t i.current (rel_of-lt p) in
      (
        record loaded { curr_chunk_data = d },
        rw r refl,
        record { current = ok; stored = i.stored; own = i.own },
        λ q. written t d q cells,
      )
