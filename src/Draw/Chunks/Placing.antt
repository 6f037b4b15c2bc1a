-- ===== src/Draw/Chunks/Placing.antt =====
-- The copy of a slice into a chunk.
use heat_gun.Base.{
  ℕ, ◌+◌, ◌-◌, ◌<◌, ◌≤◌, ◌≡◌, ◌≢◌, refl, sym, ap, ◌∙◌, true, false, List, none, some, arith, insert,
  nat_key, length, get_elem?, get_elem?-ge, get_elem?-lt, take, leb, ◌==◌, ==_iff, ==-refl,
  Bool-cases, Option-cases, inl, inr, ◌⊎◌,
}
use mathlib.Core.Option.{some-injective}
use heat_gun.Draw.Chunks.{Interval, Bytes, CbwChunk, ChunkBufferWriter, copy_from_slice, stage}
use heat_gun.Draw.Chunks.Staging.{
  Single, covers, chunk_byte, chunk_of, byte_at, Coherent, add_interval-Single,
}

-- The slice is staged at its place, and what was staged elsewhere still is.
pub record Placed (base rel : ℕ) (slice : List ℕ) (w w' : ChunkBufferWriter) : Type 0 where
  pub coherent : Coherent w'
  pub fresh : (k x : ℕ) → rel ≤ k → get_elem? slice (k - rel) ≡ some x → byte_at w' base k ≡ some x
  pub kept :
      (b k x : ℕ)
      → (base ≢ b) ⊎ ((k < rel) ⊎ (rel + length slice ≤ k))
      → byte_at w b k ≡ some x
      → byte_at w' b k ≡ some x

copy-fresh :
    (rel k x : ℕ) (slice : List ℕ) (old : Bytes)
    → rel ≤ k
    → get_elem? slice (k - rel) ≡ some x
    → copy_from_slice rel slice old k ≡ x
unfolding copy_from_slice
copy-fresh rel k x slice old h e = rw (reached rel k h, e) refl
  where
    reached : (rel k : ℕ) → rel ≤ k → leb rel k ≡ true
    reached rel k h = ground arith

copy-kept :
    (rel k : ℕ) (slice : List ℕ) (old : Bytes)
    → (k < rel) ⊎ (rel + length slice ≤ k)
    → copy_from_slice rel slice old k ≡ old k
unfolding copy_from_slice
copy-kept rel k slice old (inl h) = rw (before rel k h) refl
  where
    before : (rel k : ℕ) → k < rel → leb rel k ≡ false
    before rel k h = ground arith
copy-kept rel k slice old (inr h) =
    rw (get_elem?-ge slice (k - rel) (omega arith))
      (elim (Bool-cases (leb rel k)) [ inl g ↦ rw g refl | inr g ↦ rw g refl ])

-- What a chunk shows for an upload.
shown :
    (k x : ℕ) (c : CbwChunk)
    → covers k c.intervals ≡ true
    → c.buffer k ≡ x
    → chunk_byte k (some c) ≡ some x
shown k x c h e = rw (h, e) refl

seen :
    (k x : ℕ) (c : CbwChunk)
    → chunk_byte k (some c) ≡ some x
    → (covers k c.intervals ≡ true) × (c.buffer k ≡ x)
seen k x c e = elim (Bool-cases (covers k c.intervals)) [
  | inl h ↦ (h, some-injective (c.buffer k) x (rw h at e))
  | inr h ↦ absurd (nothing (rw h at e))
]
  where
    nothing : none ≡ some x → ⊥
    nothing p = cc

module _ (w : ChunkBufferWriter) (v : Coherent w) (base h rel : ℕ) (slice : List ℕ)
    (at : w.chunk_map base ≡ some h) (c : CbwChunk) (at_c : w.chunks h ≡ some c)
    (of_base : c.base ≡ base) (ys : List Interval) (single : Single ys)
    (covered_new : (k : ℕ) → rel ≤ k → k < rel + length slice → covers k ys ≡ true)
    (covered_old : (k : ℕ) → covers k c.intervals ≡ true → covers k ys ≡ true) where
  abbrev filled : CbwChunk
  filled = record c { buffer = copy_from_slice rel slice c.buffer; intervals = ys }

  abbrev after : ChunkBufferWriter
  after = record w { chunks = insert h filled w.chunks }

  other_base : (b i : ℕ) → w.chunk_map b ≡ some i → base ≢ b → (h == i) ≡ false
  other_base b i e ne = elim (Bool-cases (h == i)) [
    | inr g ↦ g
    | inl g ↦
        let (d, at_d, p, s) = v.mapped b i e in
        let same : some c ≡ some d = sym at_c ∙ ap w.chunks ((==_iff h i).0 g) ∙ at_d in
        absurd (ne (sym of_base ∙ ap (λ (x : CbwChunk). x.base) (some-injective c d same) ∙ p))
  ]

  chunk_here : chunk_of after base ≡ some filled
  chunk_here = rw (at, ==-refl h) refl

  chunk_before : chunk_of w base ≡ some c
  chunk_before = rw at at_c

  chunk_there : (b : ℕ) → base ≢ b → chunk_of after b ≡ chunk_of w b
  chunk_there b ne = elim (Option-cases (w.chunk_map b)) [
    | inl e ↦ rw e refl
    | inr (i, e) ↦ rw (e, other_base b i e ne) refl
  ]

  after-Coherent : Coherent after
  after-Coherent = record {
    mapped = λ b i e.
        let (d, at_d, p, s) = v.mapped b i e in
        elim (Bool-cases (h == i)) [
          | inl g ↦
              let same : some c ≡ some d = sym at_c ∙ ap w.chunks ((==_iff h i).0 g) ∙ at_d in
              (
                filled,
                rw g refl,
                ap (λ (x : CbwChunk). x.base) (some-injective c d same) ∙ p,
                single,
              )
          | inr g ↦ (d, rw g at_d, p, s)
        ];
    used = v.used;
    last = v.last;
  }

  kept_here :
      (k x : ℕ)
      → (k < rel) ⊎ (rel + length slice ≤ k)
      → byte_at w base k ≡ some x
      → byte_at after base k ≡ some x
  kept_here k x away e =
      let (cov, val) = seen k x c (ap (chunk_byte k) (sym chunk_before) ∙ e) in
      ap (chunk_byte k) chunk_here
      ∙ shown k x filled (covered_old k cov) (copy-kept rel k slice c.buffer away ∙ val)

  after-Placed : Placed base rel slice w after
  after-Placed = record {
    coherent = after-Coherent;
    fresh = λ k x le e.
        ap (chunk_byte k) chunk_here
        ∙ shown k x filled (covered_new k le (inside k le (get_elem?-lt slice (k - rel) e)))
            (copy-fresh rel k x slice c.buffer le e);
    kept = λ b k x away e. elim (Bool-cases (base == b)) [
      | inl g ↦
          let same = (==_iff base b).0 g in
          rw (← same) (kept_here k x (elsewhere b same away) (rw (← same) at e))
      | inr g ↦ ap (chunk_byte k) (chunk_there b (apart b g)) ∙ e
    ];
  }
    where
      inside : (k : ℕ) → rel ≤ k → k - rel < length slice → k < rel + length slice
      inside k a b = omega arith

      apart : (b : ℕ) → (base == b) ≡ false → base ≢ b
      apart b g e = ground (arith, ==_iff base b)

      elsewhere :
          {k : ℕ} (b : ℕ)
          → base ≡ b
          → (base ≢ b) ⊎ ((k < rel) ⊎ (rel + length slice ≤ k))
          → (k < rel) ⊎ (rel + length slice ≤ k)
      elsewhere b same (inl ne) = absurd (ne same)
      elsewhere b same (inr x) = x

pub stage-Placed :
    (w : ChunkBufferWriter) (base h rel sz : ℕ) (bytes : List ℕ)
    → Coherent w
    → w.chunk_map base ≡ some h
    → length (take sz bytes) ≡ sz
    → (w' : ChunkBufferWriter) × (stage h rel sz bytes w ≡ some w')
      × Placed base rel (take sz bytes) w w'
unfolding stage
stage-Placed w base h rel sz bytes v at len =
    let (c, at_c, of_base, s) = v.mapped base h at in
    let (ys, e, single, new, old) =
      add_interval-Single (record { start = rel; end_ = rel + sz }) c.intervals s (omega arith) in
    (
      after w v base h rel (take sz bytes) at c at_c of_base ys single
          (λ k a b. new k a (rw len at b)) old,
      rw (at_c, e) refl,
      after-Placed w v base h rel (take sz bytes) at c at_c of_base ys single
          (λ k a b. new k a (rw len at b)) old,
    )
