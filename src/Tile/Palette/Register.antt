-- ===== src/Tile/Palette/Register.antt =====
-- What a registration adds, and what it keeps.
use heat_gun.Base.{
  ℕ, ◌<◌, ◌≡◌, refl, false, [], ◌∷◌, ◌++◌, some, insert, nat_key, length, lt→ltb, ◌==◌, ==-refl,
  get_elem?-append_left, get_elem?-length_append,
}
use heat_gun.Tile.Palette.{TilePalette, id_end, from_usize, register, lookup, lookup_by_name}

-- While the palette holds fewer than 2 ^ 16 tiles, a registration succeeds; its id and its name
-- lead to the descriptor and to the id, and older ids and other names to what they led to.
pub lookup-register :
    (p : TilePalette) (name descriptor : ℕ)
    → length p.list < id_end
    → (id : ℕ) × (p' : TilePalette) × (register name descriptor p ≡ some (id, p'))
      × (lookup id p' ≡ some descriptor)
      × (lookup_by_name name p' ≡ some id)
      × ((i : ℕ) → i < length p.list → lookup i p' ≡ lookup i p)
      × ((s : ℕ) → (name == s) ≡ false → lookup_by_name s p' ≡ lookup_by_name s p)
unfolding register from_usize lookup lookup_by_name
lookup-register p name descriptor room = (
  length p.list,
  record { list = p.list ++ descriptor ∷ []; by_name = insert name (length p.list) p.by_name },
  rw (lt→ltb (length p.list) id_end room) refl,
  get_elem?-length_append p.list (descriptor ∷ []),
  rw (==-refl name) refl,
  (λ i h. get_elem?-append_left p.list (descriptor ∷ []) i h),
  λ s ne. rw ne refl,
)
