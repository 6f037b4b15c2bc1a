-- ===== src/Draw/Chunks/Staging.antt =====
-- What stands staged in a writer, and what one round of a write does to it.
use heat_gun.Base.{
  ℕ, suc, ◌+◌, ◌<◌, ◌≤◌, ◌≡◌, refl, ap, ◌∙◌, Bool, true, false, ◌&&◌, ◌||◌, List, [], ◌∷◌, Option,
  none, some, arith, insert, nat_key, length, swap_remove, ltb, leb, ◌==◌, ==_iff, ==-refl,
  if◌then◌else◌, ◌>>=◌, Bool-cases, Option-cases, inl, inr,
}
use mathlib.Core.Option.{some-injective}
use heat_gun.Draw.Chunks.{
  Interval, Belt, CbwChunk, ChunkBufferWriter, hull, add_interval, same_chunk, insert_chunk,
  find_chunk,
}

-- A chunk's intervals are none, or a single one: whatever is staged is merged into its hull.
abbrev pub Single : List Interval → Type 0
Single [] = Unit
Single (a ∷ []) = a.start ≤ a.end_
Single (a ∷ b ∷ r) = ⊥

abbrev pub covers : ℕ → List Interval → Bool
covers k [] = false
covers k (a ∷ r) = (leb a.start k && ltb k a.end_) || covers k r

-- The byte that a chunk holds for the upload.
abbrev pub chunk_byte : ℕ → Option CbwChunk → Option ℕ
chunk_byte k none = none
chunk_byte k (some c) = if covers k c.intervals then some (c.buffer k) else none

abbrev pub chunk_of : ChunkBufferWriter → ℕ → Option CbwChunk
chunk_of w b = w.chunk_map b >>= λ h. w.chunks h

abbrev pub byte_at : ChunkBufferWriter → ℕ → ℕ → Option ℕ
byte_at w b k = chunk_byte k (chunk_of w b)

pub record Coherent (w : ChunkBufferWriter) : Type 0 where
  pub mapped :
      (b h : ℕ)
      → w.chunk_map b ≡ some h
      → (c : CbwChunk) × (w.chunks h ≡ some c) × (c.base ≡ b) × Single c.intervals
  pub used : (b h : ℕ) → w.chunk_map b ≡ some h → h < w.next_chunk
  pub last : (b h : ℕ) → w.last_chunk ≡ some (b, h) → w.chunk_map b ≡ some h

-- `add_interval` ends, and leaves one interval, which covers the new one and what was covered.
pub add_interval-Single :
    (to : Interval) (xs : List Interval)
    → Single xs
    → to.start ≤ to.end_
    → (ys : List Interval) × (add_interval (suc (length xs)) 0 to xs ≡ some ys)
      × Single ys
      × ((k : ℕ) → to.start ≤ k → k < to.end_ → covers k ys ≡ true)
      × ((k : ℕ) → covers k xs ≡ true → covers k ys ≡ true)
unfolding add_interval swap_remove
add_interval-Single to [] s h = (to ∷ [], refl, h, (λ k a b. ground arith), λ k e. absurd (cc))
add_interval-Single to (o ∷ []) s h = (
  hull to o ∷ [],
  rw (add_interval, apart o s) refl,
  omega arith,
  (λ k a b. ground arith),
  λ k e. ground arith,
)
  where
    apart : (o : Interval) → o.start ≤ o.end_ → (ltb to.end_ o.start && ltb o.end_ to.start) ≡ false
    apart o s = ground arith
add_interval-Single to (a ∷ b ∷ r) s h = elim s [ ]

-- What `find_chunk` gives: the chunk of the base, and the staged bytes unchanged.
pub record Found (base : ℕ) (w : ChunkBufferWriter) (h : ℕ) (w' : ChunkBufferWriter) : Type 0 where
  pub at_base : w'.chunk_map base ≡ some h
  pub coherent : Coherent (record w' { last_chunk = some (base, h) })
  pub same : (b k : ℕ) → byte_at w' b k ≡ byte_at w b k

pair_of : (a b c d : ℕ) → ◌≡◌ {A = Option (ℕ × ℕ)} (some (a, b)) (some (c, d)) → (a ≡ c) × (b ≡ d)
pair_of a b c d e = (
  ap (λ (p : ℕ × ℕ). p.0) (some-injective (a, b) (c, d) e),
  ap (λ (p : ℕ × ℕ). p.1) (some-injective (a, b) (c, d) e),
)

-- Remembering a chunk that is in the map.
remember :
    (w : ChunkBufferWriter) (base h : ℕ)
    → ((b i : ℕ)
        → w.chunk_map b ≡ some i
        → (c : CbwChunk) × (w.chunks i ≡ some c) × (c.base ≡ b) × Single c.intervals)
    → ((b i : ℕ) → w.chunk_map b ≡ some i → i < w.next_chunk)
    → w.chunk_map base ≡ some h
    → Coherent (record w { last_chunk = some (base, h) })
remember w base h mapped used at = record {
  mapped = mapped;
  used = used;
  last = λ b i e. let (p, q) = pair_of base h b i e in rw (← p, ← q) at;
}

module _ (acquired : Belt) (base : ℕ) (w : ChunkBufferWriter) (v : Coherent w) where
  known : (h : ℕ) → w.chunk_map base ≡ some h → Found base w h w
  known h at = record {
    at_base = at;
    coherent = remember w base h v.mapped v.used at;
    same = λ b k. refl;
  }

  abbrev grown : ChunkBufferWriter
  grown = record w {
    chunk_map = insert base w.next_chunk w.chunk_map;
    chunks =
        insert w.next_chunk (record { base = base; buffer = acquired w.next_chunk; intervals = [] })
          w.chunks;
    next_chunk = w.next_chunk + 1;
  }

  -- An index that was handed out is not the next one.
  older : (b h : ℕ) → w.chunk_map b ≡ some h → (w.next_chunk == h) ≡ false
  older b h e = ground (arith, v.used b h e)

  grown_chunk : (b h : ℕ) → w.chunk_map b ≡ some h → grown.chunks h ≡ w.chunks h
  grown_chunk b h e = rw (older b h e) refl

  made : w.chunk_map base ≡ none → Found base w w.next_chunk grown
  made fresh = record {
    at_base = rw (==-refl base) refl;
    coherent = remember grown base w.next_chunk mapped used (rw (==-refl base) refl);
    same = same;
  }
    where
      mapped :
          (b i : ℕ)
          → grown.chunk_map b ≡ some i
          → (c : CbwChunk) × (grown.chunks i ≡ some c) × (c.base ≡ b) × Single c.intervals
      mapped b i e = elim (Bool-cases (base == b)) [
        | inl h ↦
            let new : w.next_chunk ≡ i = some-injective w.next_chunk i (rw h at e) in
            (
              record { base = base; buffer = acquired w.next_chunk; intervals = [] },
              rw (← new, ==-refl w.next_chunk) refl,
              (==_iff base b).0 h,
              tt,
            )
        | inr h ↦
            let old : w.chunk_map b ≡ some i = rw h at e in
            let (c, at, p, s) = v.mapped b i old in (c, grown_chunk b i old ∙ at, p, s)
      ]

      used : (b i : ℕ) → grown.chunk_map b ≡ some i → i < grown.next_chunk
      used b i e = elim (Bool-cases (base == b)) [
        | inl h ↦
            let new : w.next_chunk ≡ i = some-injective w.next_chunk i (rw h at e) in omega arith
        | inr h ↦ let old = v.used b i (rw h at e) in omega arith
      ]

      same : (b k : ℕ) → byte_at grown b k ≡ byte_at w b k
      same b k = elim (Bool-cases (base == b)) [
        | inl h ↦ rw (h, ==-refl w.next_chunk, ← (==_iff base b).0 h, fresh) refl
        | inr h ↦ elim (Option-cases (w.chunk_map b)) [
          | inl e ↦ rw (h, e) refl
          | inr (i, e) ↦ rw (h, e, older b i e) refl
        ]
      ]

  same_chunk-lem : (o : Option (ℕ × ℕ)) (h : ℕ) → same_chunk base o ≡ some h → o ≡ some (base, h)
  same_chunk-lem none h e = absurd (cc)
  same_chunk-lem (some (b, i)) h e = elim (Bool-cases (base == b)) [
    | inl g ↦ let q : i ≡ h = some-injective i h (rw g at e) in rw (← (==_iff base b).0 g, q) refl
    | inr g ↦ absurd (nothing (rw g at e))
  ]
    where
      nothing : none ≡ some h → ⊥
      nothing p = cc

  pub find_chunk-Found :
      (h : ℕ) × (w' : ChunkBufferWriter) × (find_chunk acquired base w ≡ (h, w'))
      × Found base w h w'
  unfolding find_chunk insert_chunk
  find_chunk-Found = elim (Option-cases (same_chunk base w.last_chunk)) [
    | inr (h, e) ↦
        (h, w, rw (find_chunk, e) refl, known h (v.last base h (same_chunk-lem w.last_chunk h e)))
    | inl e ↦ elim (Option-cases (w.chunk_map base)) [
      | inr (h, at) ↦ (h, w, rw (find_chunk, e, at) refl, known h at)
      | inl fresh ↦ (w.next_chunk, grown, rw (find_chunk, e, fresh) refl, made fresh)
    ]
  ]
