-- ===== src/Draw/Buffers/Extending.antt =====
-- The data that are appended to a buffer.
use heat_gun.Base.{
  ℕ, ◌+◌, ◌-◌, ◌≡◌, ◌≢◌, refl, ◌∙◌, max, true, false, List, ◌++◌, none, some, arith, insert,
  nat_key, length, take, take-all, take-append-drop, length-append, ltb, leb, ◌==◌, ==_iff, ==-refl,
  if◌then◌else◌, Bool-cases, inl, inr,
}
use heat_gun.Draw.Chunks.{Belt}
use heat_gun.Draw.Chunks.Staging.{Coherent}
use heat_gun.Draw.Chunks.Writing.{Wrote, write-Wrote}
use heat_gun.Draw.Buffers.{
  DynamicBuffer, DynamicBufferManager, len, write_positioned, write_local, write, extend,
}

-- The local copy is that of the whole buffer.
pub record Mirrored (state : DynamicBuffer) (local : List ℕ) : Type 0 where
  pub copy : state.local_copy ≡ some local
  pub whole : length local ≡ state.target_len
  pub writer : Coherent state.writer

-- The writer of a local copy panics exactly where the place is beyond the vector, or the data end
-- before the vector does.
pub write_positioned_lem :
    (start : ℕ) (bytes target : List ℕ)
    → write_positioned start bytes target ≡ (
        if leb start (length target)
        then (if leb (length target) (start + length bytes)
            then some (take start target ++ bytes)
            else none)
        else none)
unfolding write_positioned
write_positioned_lem start bytes target = elim (Bool-cases (leb start (length target))) [
  | inr h ↦ rw (h, over h) refl
  | inl h ↦ elim (Bool-cases (leb (length target) (start + length bytes))) [
    | inl g ↦ rw (h, g, under h, long h g, take-append-drop (length target - start) bytes) refl
    | inr g ↦ rw (h, g, under h, short h g) refl
  ]
]
  where
    over : leb start (length target) ≡ false → ltb (length target) start ≡ true
    over h = ground arith

    under : leb start (length target) ≡ true → ltb (length target) start ≡ false
    under h = ground arith

    long :
        leb start (length target) ≡ true
        → leb (length target) (start + length bytes) ≡ true
        → leb (length target - start) (length bytes) ≡ true
    long h g = ground arith

    short :
        leb start (length target) ≡ true
        → leb (length target) (start + length bytes) ≡ false
        → leb (length target - start) (length bytes) ≡ false
    short h g = ground arith

-- In a buffer with a whole local copy, `extend` does not panic and returns the number of bytes: the
-- bytes stand at the end of the local copy, which is whole again, they are staged behind the old
-- end, what else was staged still is, and no other buffer is changed.
pub extend-Mirrored :
    (acquired : Belt) (buffer : ℕ) (bytes local : List ℕ) (m : DynamicBufferManager)
    (state : DynamicBuffer)
    → m buffer ≡ some state
    → Mirrored state local
    → (m' : DynamicBufferManager) × (state' : DynamicBuffer) × (extend acquired buffer bytes m
        ≡ some (length bytes, m'))
      × (m' buffer ≡ some state')
      × Mirrored state' (local ++ bytes)
      × Wrote (length local) bytes state.writer state'.writer
      × ((other : ℕ) → buffer ≢ other → m' other ≡ m other)
unfolding extend len write write_local
extend-Mirrored acquired buffer bytes local m state at mirrored =
    let (w, e, wrote) =
      write-Wrote acquired (length bytes) state.target_len bytes state.writer mirrored.writer
        (omega arith) in
    let state' : DynamicBuffer = record state {
      local_copy = some (local ++ bytes);
      writer = w;
      target_len = max state.target_len (state.target_len + length bytes);
    } in
    (
      insert buffer state' m,
      state',
      rw (at, mirrored.copy, at_end, e) refl,
      rw (==-refl buffer) refl,
      record {
        copy = refl;
        whole = length-append local bytes ∙ longer (length local) state.target_len mirrored.whole;
        writer = wrote.coherent;
      },
      rw mirrored.whole wrote,
      λ other ne. elim (Bool-cases (buffer == other)) [
        | inl g ↦ absurd (ne ((==_iff buffer other).0 g))
        | inr g ↦ rw g refl
      ],
    )
  where
    longer : (a t : ℕ) → a ≡ t → a + length bytes ≡ max t (t + length bytes)
    longer a t e = omega arith

    at_end : write_positioned state.target_len bytes local ≡ some (local ++ bytes)
    at_end =
        write_positioned_lem state.target_len bytes local
        ∙ rw
            (
              ← mirrored.whole,
              fits (length local),
              fits' (length local),
              take-all (length local) local (omega arith),
            )
            refl
      where
        fits : (a : ℕ) → leb a a ≡ true
        fits a = ground arith

        fits' : (a : ℕ) → leb a (a + length bytes) ≡ true
        fits' a = ground arith
