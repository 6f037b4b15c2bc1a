-- ===== src/Tile/Map/View.antt =====
-- The map as a total function from positions to tiles, whichever chunk is at hand.
use heat_gun.Base.{
  ℕ, zero, suc, ◌+◌, ◌≡◌, refl, sym, ap, ◌∙◌, subst, true, false, List, [], ◌∷◌, Option, none, some,
  arith, get_elem?, replicate, length, length-replicate, ◌==◌, ==_iff, if◌then◌else◌, Bool-cases,
  inl, inr,
}
use mathlib.Core.Option.{some-injective}
use heat_gun.Tile.Map.{
  IVec2, vec_eq, chunk_of, rel_of, TileChunk, default_chunk, TileMap, put_chunk, drop_chunk,
  unwrap_or_default, unwrap_or, load_chunk, solid,
}
use heat_gun.Tile.Map.Position.{vec_eq-eq, vec_eq_refl}

abbrev pub count : List ℕ → ℕ
count [] = 0
count (t ∷ ts) = solid t + count ts

-- A chunk has its 256 cells, and its count is the number of those that are not 0.
abbrev pub IsChunk : TileChunk → Type 0
IsChunk c = (length c.cells ≡ 256) × (c.solid_num ≡ count c.cells)

-- The chunk at hand is not in the table, too.
pub record IsValid (m : TileMap) : Type 0 where
  pub current : IsChunk m.curr_chunk_data
  pub stored : (c : IVec2) (d : TileChunk) → m.chunks c ≡ some d → IsChunk d
  pub own : m.chunks m.curr_chunk_pos ≡ none

-- The chunk of a place: the one at hand, the stored one, or one without a tile.
abbrev pub chunk_at : TileMap → IVec2 → TileChunk
chunk_at m c =
    if vec_eq m.curr_chunk_pos c then m.curr_chunk_data else unwrap_or_default (m.chunks c)

-- The tile at a position.
abbrev pub tile_at : TileMap → IVec2 → Option ℕ
tile_at m p = get_elem? (chunk_at m (chunk_of p)).cells (rel_of p)

count_zero : (ts : List ℕ) → count ts ≡ 0 → ts ≡ replicate (length ts) 0
count_zero [] e = refl
count_zero (zero ∷ ts) e = ap (λ xs. 0 ∷ xs) (count_zero ts (omega arith))
count_zero (suc t ∷ ts) e = absurd (ground arith)

count-replicate : (n : ℕ) → count (replicate n 0) ≡ 0
count-replicate zero = refl
count-replicate (suc n) = rw (count-replicate n) refl

pub default-IsChunk : IsChunk default_chunk
unfolding default_chunk
default-IsChunk = (length-replicate {A = ℕ} 256 0, sym (count-replicate 256))

-- A chunk that counts no tile is the empty chunk.
empty_chunk :
    (c : TileChunk) → IsChunk c → (c.solid_num == 0) ≡ true → c.cells ≡ default_chunk.cells
unfolding default_chunk
empty_chunk c ok e = count_zero c.cells (sym ok.1 ∙ (==_iff c.solid_num 0).0 e) ∙ rw ok.0 refl

unwrap-IsChunk :
    (o : Option TileChunk)
    → ((d : TileChunk) → o ≡ some d → IsChunk d)
    → IsChunk (unwrap_or_default o)
unfolding unwrap_or_default
unwrap-IsChunk none h = default-IsChunk
unwrap-IsChunk (some d) h = h d refl

unwrap_or-IsChunk :
    (o : Option TileChunk) (c : TileChunk)
    → ((d : TileChunk) → o ≡ some d → IsChunk d)
    → IsChunk c
    → IsChunk (unwrap_or c o)
unwrap_or-IsChunk none c h k = k
unwrap_or-IsChunk (some d) c h k = h d refl

-- Where nothing is stored, an empty chunk serves as the default.
unwrap-cells :
    (o : Option TileChunk) (c : TileChunk)
    → c.cells ≡ default_chunk.cells
    → (unwrap_or c o).cells ≡ (unwrap_or_default o).cells
unfolding unwrap_or_default
unwrap-cells none c e = e
unwrap-cells (some d) c e = refl

module _ (m : TileMap) (v : IsValid m) (c : IVec2) (away : vec_eq m.curr_chunk_pos c ≡ false) where
  abbrev reused : TileMap
  reused = record {
    curr_chunk_pos = c;
    curr_chunk_data = unwrap_or m.curr_chunk_data (m.chunks c);
    chunks = drop_chunk c m.chunks;
  }

  abbrev swapped : TileMap
  swapped = record {
    curr_chunk_pos = c;
    curr_chunk_data = unwrap_or_default (m.chunks c);
    chunks = put_chunk m.curr_chunk_pos m.curr_chunk_data (drop_chunk c m.chunks);
  }

  dropped_stored : (d : IVec2) (e : TileChunk) → drop_chunk c m.chunks d ≡ some e → IsChunk e
  dropped_stored d e at = elim (Bool-cases (vec_eq c d)) [
    | inl h ↦ absurd (none_some (rw h at at))
    | inr h ↦ v.stored d e (rw h at at)
  ]
    where
      none_some : none ≡ some e → ⊥
      none_some e = cc

  reused-IsValid : IsValid reused
  reused-IsValid = record {
    current = unwrap_or-IsChunk (m.chunks c) m.curr_chunk_data (v.stored c) v.current;
    stored = dropped_stored;
    own = rw (vec_eq_refl c) refl;
  }

  swapped-IsValid : IsValid swapped
  swapped-IsValid = record {
    current = unwrap-IsChunk (m.chunks c) (v.stored c);
    stored = λ d e at. elim (Bool-cases (vec_eq m.curr_chunk_pos d)) [
      | inl h ↦ subst IsChunk (some-injective m.curr_chunk_data e (rw h at at)) v.current
      | inr h ↦ dropped_stored d e (rw h at at)
    ];
    own = rw (away, vec_eq_refl c) refl;
  }

  swapped-cells : (d : IVec2) → (chunk_at swapped d).cells ≡ (chunk_at m d).cells
  unfolding unwrap_or_default
  swapped-cells d = elim (Bool-cases (vec_eq c d)) [
    | inl h ↦ rw (← vec_eq-eq c d h, vec_eq_refl c, away) refl
    | inr h ↦ elim (Bool-cases (vec_eq m.curr_chunk_pos d)) [
      | inl g ↦ rw (h, g) refl
      | inr g ↦ rw (h, g) refl
    ]
  ]

  reused-cells :
      (m.curr_chunk_data.solid_num == 0) ≡ true
      → (d : IVec2) → (chunk_at reused d).cells ≡ (chunk_at m d).cells
  reused-cells e d =
      let blank = empty_chunk m.curr_chunk_data v.current e in
      elim (Bool-cases (vec_eq c d)) [
        | inl h ↦
            rw (← vec_eq-eq c d h, vec_eq_refl c, away)
              (unwrap-cells (m.chunks c) m.curr_chunk_data blank)
        | inr h ↦ elim (Bool-cases (vec_eq m.curr_chunk_pos d)) [
          | inl g ↦ rw (h, g, ← vec_eq-eq m.curr_chunk_pos d g, v.own) (unwrapped ∙ sym blank)
          | inr g ↦ rw (h, g) refl
        ]
      ]
    where
      unwrapped : (unwrap_or_default none).cells ≡ default_chunk.cells
      unwrapped = sym (unwrap-cells none default_chunk refl)

-- Loading a chunk brings it to hand, keeps the map valid and changes no chunk.
pub load_chunk-IsValid :
    (m : TileMap) (c : IVec2)
    → IsValid m
    → IsValid (load_chunk c m)
      × ((load_chunk c m).curr_chunk_pos ≡ c)
      × ((d : IVec2) → (chunk_at (load_chunk c m) d).cells ≡ (chunk_at m d).cells)
unfolding load_chunk
load_chunk-IsValid m c v = elim (Bool-cases (vec_eq m.curr_chunk_pos c)) [
  | inl h ↦ rw h (v, vec_eq-eq m.curr_chunk_pos c h, λ d. refl)
  | inr h ↦ elim (Bool-cases (m.curr_chunk_data.solid_num == 0)) [
    | inl g ↦ rw (h, g) (reused-IsValid m v c h, refl, reused-cells m v c h g)
    | inr g ↦ rw (h, g) (swapped-IsValid m v c h, refl, swapped-cells m v c h)
  ]
]
