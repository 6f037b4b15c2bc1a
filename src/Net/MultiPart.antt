-- ===== src/Net/MultiPart.antt =====
-- src/engine/hg-engine-common/src/net/serialize.rs: `MultiPartSerializeExt` and `MultiPartDecoder`.
-- Bytes are numbers; the packet that `postcard` writes is given by its bytes.
pub mod RoundTrip
use heat_gun.Base.{
  ℕ, zero, suc, ◌+◌, ◌-◌, ◌<◌, ◌≤◌, ◌≡◌, refl, sym, ap, ◌∙◌, List, [], ◌∷◌, ◌++◌, Option, none,
  some, arith, length, take, drop, leb, if◌then◌else◌, Bool, true, false, leb→le, lt→ltb,
  Bool-cases, inl, inr, All,
}
use heat_gun.Net.Varint.{Varint, IsVarint, u64_end}

abbrev max_var_int_len : ℕ
max_var_int_len = 9

unfoldable pub reverse : List ℕ → List ℕ
reverse [] = []
reverse (x ∷ xs) = reverse xs ++ x ∷ []

-- What the decoder yields for a part: the bytes, or one of its two errors.
pub data Part : Type 0 where
  part : List ℕ → Part
  invalid_length : Part
  too_long : ℕ → ℕ → Part

-- The end of `next`: the part is split off what remains before the footer.
extract : ℕ → List ℕ → Part × List ℕ
extract part_len remaining =
    if leb part_len (length remaining)
    then (
      part (drop (length remaining - part_len) remaining),
      take (length remaining - part_len) remaining,
    )
    else (too_long part_len (length remaining), remaining)

-- The last bytes of the buffer, in reverse order.
len_bytes : List ℕ → List ℕ
unfolding reverse
len_bytes remaining = reverse (drop (length remaining - max_var_int_len) remaining)

module _ (v : Varint) where
  -- `encode_multi_part_raw`, for a writer that appends `data`.
  unfoldable pub encode_multi_part_raw : List ℕ → List ℕ → List ℕ
  unfolding reverse
  encode_multi_part_raw buf data_bytes =
      (buf ++ data_bytes) ++ reverse (v.serialize (length data_bytes))

  footer : List ℕ → Option (ℕ × List ℕ) → Part × List ℕ
  unfolding extract len_bytes
  footer remaining none = (invalid_length, remaining)
  footer remaining (some (part_len, cursor)) =
      let footer_len = length (len_bytes remaining) - length cursor in
      extract part_len (take (length remaining - footer_len) remaining)

  -- `MultiPartDecoder::next`, with the bytes that remain.
  unfoldable pub next : List ℕ → Option (Part × List ℕ)
  unfolding footer len_bytes
  next [] = none
  next (b ∷ bytes) = some (footer (b ∷ bytes) (v.deserialize (len_bytes (b ∷ bytes))))

  -- `next` until it ends, as the loop of a caller runs it, on fuel; it stops at the first error.
  unfoldable pub parts : ℕ → List ℕ → Option (List (List ℕ))
  unfolding next
  parts zero remaining = none
  parts (suc fuel) remaining = elim (next remaining) [
    | none ↦ some []
    | some (part bytes, rest) ↦ elim (parts fuel rest) [ none ↦ none | some ps ↦ some (bytes ∷ ps) ]
    | some (invalid_length, rest) ↦ none
    | some (too_long n k, rest) ↦ none
  ]

  -- Several parts encoded one after the other, as a caller does: the counterpart of `parts`.
  unfoldable pub encode_all : List ℕ → List (List ℕ) → List ℕ
  unfolding encode_multi_part_raw
  encode_all buf [] = buf
  encode_all buf (p ∷ ps) = encode_all (encode_multi_part_raw buf p) ps
