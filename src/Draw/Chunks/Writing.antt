-- ===== src/Draw/Chunks/Writing.antt =====
-- Whole writes: each byte is staged at its address, and none that was staged is lost.
use heat_gun.Base.{
  ℕ, zero, suc, ◌+◌, ◌-◌, ◌<◌, ◌≤◌, ◌≡◌, ◌≢◌, refl, sym, ap, subst, ◌∙◌, true, false, List, [], ◌∷◌,
  ◌++◌, Option, none, some, arith, length, get_elem?, get_elem?-lt, take, drop, take-append-drop,
  length-take, length-append, get_elem?-append_left, get_elem?-append_right, ltb→lt, length-drop,
  ltb, ◌==◌, ==_iff, Bool-cases, inl, inr, ◌⊎◌,
}
use heat_gun.Draw.Chunks.{
  chunk_size, Belt, ChunkBufferWriter, chunk_base_of, write_size, write_round, write,
}
use heat_gun.Draw.Chunks.Staging.{byte_at, Coherent, find_chunk-Found}
use heat_gun.Draw.Chunks.Placing.{Placed, stage-Placed}

-- The byte that waits for its upload to an address.
unfoldable pub staged : ChunkBufferWriter → ℕ → Option ℕ
staged w a = byte_at w (chunk_base_of a) (a - chunk_base_of a)

pub record Wrote (offset : ℕ) (bytes : List ℕ) (w w' : ChunkBufferWriter) : Type 0 where
  pub coherent : Coherent w'
  pub fresh : (a x : ℕ) → offset ≤ a → get_elem? bytes (a - offset) ≡ some x → staged w' a ≡ some x
  pub kept :
      (a x : ℕ)
      → (a < offset) ⊎ (offset + length bytes ≤ a)
      → staged w a ≡ some x
      → staged w' a ≡ some x

module _ (offset : ℕ) where
  abbrev base : ℕ
  base = chunk_base_of offset

  same_base :
      (a n : ℕ)
      → offset ≤ a
      → a < offset + n
      → n ≤ chunk_size - (offset - base)
      → chunk_base_of a ≡ base
  same_base a n h k s = omega arith

  below_base : base ≤ offset
  below_base = omega arith

  rel_lt : offset - base < chunk_size
  rel_lt = omega arith

module _ (offset : ℕ) (slice : List ℕ) (w w' : ChunkBufferWriter)
    (fits : length slice ≤ chunk_size - (offset - base offset))
    (p : Placed (base offset) (offset - base offset) slice w w') where
  placed_fresh :
      (a x : ℕ) → offset ≤ a → get_elem? slice (a - offset) ≡ some x → staged w' a ≡ some x
  unfolding staged
  placed_fresh a x h e =
      let same =
        same_base offset a (length slice) h
          (inside (a - offset) (length slice) (get_elem?-lt slice (a - offset) e) h) fits in
      rw same (
        p.fresh (a - base offset) x (later (base offset))
          (rw (shift (base offset) (below_base offset)) e))
    where
      inside : (d n : ℕ) → a - offset < n → offset ≤ a → a < offset + n
      inside d n u v = omega arith

      later : (b : ℕ) → offset - b ≤ a - b
      later b = omega arith

      shift : (b : ℕ) → b ≤ offset → a - b - (offset - b) ≡ a - offset
      shift b u = omega arith

  placed_kept :
      (a x : ℕ)
      → (a < offset) ⊎ (offset + length slice ≤ a)
      → staged w a ≡ some x
      → staged w' a ≡ some x
  unfolding staged
  placed_kept a x away e = p.kept (chunk_base_of a) (a - chunk_base_of a) x where_ e
    where
      where_ :
          (base offset ≢ chunk_base_of a)
          ⊎ ((a - chunk_base_of a < offset - base offset)
              ⊎ (offset - base offset + length slice ≤ a - chunk_base_of a))
      where_ = elim (Bool-cases (base offset == chunk_base_of a)) [
        | inr g ↦ inl (λ s. other s g)
        | inl g ↦ inr (side away ((==_iff (base offset) (chunk_base_of a)).0 g))
      ]
        where
          other : base offset ≡ chunk_base_of a → (base offset == chunk_base_of a) ≡ false → ⊥
          other s g = ground (arith, ==_iff (base offset) (chunk_base_of a))

          side :
              (a < offset) ⊎ (offset + length slice ≤ a)
              → base offset ≡ chunk_base_of a
              → (a - chunk_base_of a < offset - base offset)
                ⊎ (offset - base offset + length slice ≤ a - chunk_base_of a)
          side (inl u) s = inl (omega arith)
          side (inr u) s = inr (omega arith)

-- One round writes a part of the bytes.
round-Wrote :
    (acquired : Belt) (offset : ℕ) (bytes : List ℕ) (w : ChunkBufferWriter)
    → Coherent w
    → (w' : ChunkBufferWriter) × (write_round acquired offset bytes w ≡ some w')
      × Wrote offset (take (write_size offset bytes) bytes) w w'
unfolding write_round staged
round-Wrote acquired offset bytes w v =
    let (h, w1, e, found) = find_chunk-Found acquired (base offset) w v in
    let (w2, e2, placed) =
      stage-Placed (record w1 { last_chunk = some (base offset, h) }) (base offset) h
        (offset - base offset) (write_size offset bytes) bytes found.coherent found.at_base len in
    (
      w2,
      rw e e2,
      record {
        coherent = placed.coherent;
        fresh =
            placed_fresh offset (take (write_size offset bytes) bytes)
              (record w1 { last_chunk = some (base offset, h) }) w2 fits placed;
        kept = λ a x away s.
            placed_kept offset (take (write_size offset bytes) bytes)
              (record w1 { last_chunk = some (base offset, h) }) w2 fits placed a x away
              (before w1 found.same a ∙ s);
      },
    )
  where
    len : length (take (write_size offset bytes) bytes) ≡ write_size offset bytes
    len = omega (arith, length-take (write_size offset bytes) bytes)

    fits : length (take (write_size offset bytes) bytes) ≤ chunk_size - (offset - base offset)
    fits = omega (arith, length-take (write_size offset bytes) bytes)

    before :
        (w1 : ChunkBufferWriter)
        → ((b k : ℕ) → byte_at w1 b k ≡ byte_at w b k)
        → (a : ℕ) → staged w1 a ≡ staged w a
    before w1 same a = unfold staged in same (chunk_base_of a) (a - chunk_base_of a)

-- Two writes in a row are one.
Wrote-append :
    (offset : ℕ) (xs ys : List ℕ) (w w1 w2 : ChunkBufferWriter)
    → Wrote offset xs w w1
    → Wrote (offset + length xs) ys w1 w2
    → Wrote offset (xs ++ ys) w w2
Wrote-append offset xs ys w w1 w2 p q = record {
  coherent = q.coherent;
  fresh = fresh;
  kept = λ a x away e.
      q.kept a x (beyond a (length (xs ++ ys)) (length-append xs ys) away)
        (p.kept a x (outside a (length (xs ++ ys)) (length-append xs ys) away) e);
}
  where
    beyond :
        (a n : ℕ)
        → n ≡ length xs + length ys
        → (a < offset) ⊎ (offset + n ≤ a)
        → (a < offset + length xs) ⊎ (offset + length xs + length ys ≤ a)
    beyond a n e (inl h) = inl (omega arith)
    beyond a n e (inr h) = inr (omega arith)

    outside :
        (a n : ℕ)
        → n ≡ length xs + length ys
        → (a < offset) ⊎ (offset + n ≤ a)
        → (a < offset) ⊎ (offset + length xs ≤ a)
    outside a n e (inl h) = inl h
    outside a n e (inr h) = inr (omega arith)

    fresh :
        (a x : ℕ) → offset ≤ a → get_elem? (xs ++ ys) (a - offset) ≡ some x → staged w2 a ≡ some x
    fresh a x h e = elim (Bool-cases (ltb (a - offset) (length xs))) [
      | inl g ↦ q.kept a x (inl (inner a h g)) (
          p.fresh a x h (
            sym (get_elem?-append_left xs ys (a - offset) (ltb→lt (a - offset) (length xs) g)) ∙ e))
      | inr g ↦ q.fresh a x (omega (arith, outer a h g)) (
          ap (get_elem? ys) (shift a)
          ∙ sym (get_elem?-append_right xs ys (a - offset) (outer a h g))
          ∙ e)
    ]
      where
        inner : (a : ℕ) → offset ≤ a → ltb (a - offset) (length xs) ≡ true → a < offset + length xs
        inner a h g = ground arith

        outer : (a : ℕ) → offset ≤ a → ltb (a - offset) (length xs) ≡ false → length xs ≤ a - offset
        outer a h g = ground arith

        shift : (a : ℕ) → a - (offset + length xs) ≡ a - offset - length xs
        shift a = omega arith

-- A write into a coherent writer, with a round of fuel for each byte, does not panic: each byte is
-- then staged at its address, every byte that was staged at another address still is, and the
-- writer is coherent.
pub write-Wrote :
    (acquired : Belt) (fuel offset : ℕ) (bytes : List ℕ) (w : ChunkBufferWriter)
    → Coherent w
    → length bytes ≤ fuel
    → (w' : ChunkBufferWriter) × (write acquired fuel offset bytes w ≡ some w')
      × Wrote offset bytes w w'
unfolding write
write-Wrote acquired fuel offset [] w v h = (
  w,
  refl,
  record { coherent = v; fresh = λ a x le e. absurd (none_there x e); kept = λ a x away e. e },
)
  where
    none_there : (x : ℕ) → none ≡ some x → ⊥
    none_there x e = cc
write-Wrote acquired zero offset (b ∷ bytes) w v h = absurd (omega arith)
write-Wrote acquired (suc fuel) offset (b ∷ bytes) w v h =
    let n = write_size offset (b ∷ bytes) in
    let (w1, e1, one) = round-Wrote acquired offset (b ∷ bytes) w v in
    let (w2, e2, rest) =
      write-Wrote acquired fuel (offset + n) (drop n (b ∷ bytes)) w1 one.coherent
        (omega (arith, length-drop n (b ∷ bytes))) in
    (
      w2,
      rw e1 e2,
      subst (λ xs. Wrote offset xs w w2) (take-append-drop n (b ∷ bytes))
          (Wrote-append offset (take n (b ∷ bytes)) (drop n (b ∷ bytes)) w w1 w2 one
            (subst (λ m. Wrote (offset + m) (drop n (b ∷ bytes)) w1 w2) (sym taken) rest)),
    )
  where
    taken :
        length (take (write_size offset (b ∷ bytes)) (b ∷ bytes)) ≡ write_size offset (b ∷ bytes)
    taken = omega (arith, length-take (write_size offset (b ∷ bytes)) (b ∷ bytes))
