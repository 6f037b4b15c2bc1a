-- ===== src/Net/Tests.antt =====
-- A variable-length code with two lengths, and the round trips with it.
use heat_gun.Base.{
  ℕ, zero, suc, ◌<◌, ◌≤◌, ◌≡◌, refl, List, [], ◌∷◌, ◌++◌, Option, none, some, arith, length, take,
  ltb, if◌then◌else◌, Bool, true, false, Bool-cases, inl, inr,
}
use heat_gun.Net.Varint.{Varint, IsVarint}
use heat_gun.Net.MultiPart.{parts, encode_all}
use heat_gun.Net.MultiPart.RoundTrip.{parts-encode_all, rev_onto}
use heat_gun.Net.Frame.{FrameDecoder, incomplete, frame, too_large, encoder, finish, decode}
use heat_gun.Net.Frame.RoundTrip.{decode-finish}

-- A small number is one byte; another stands behind the byte 255.
abbrev write_two : Bool → ℕ → List ℕ
write_two true n = n ∷ []
write_two false n = 255 ∷ n ∷ []

abbrev read_two : Bool → ℕ → List ℕ → Option (ℕ × List ℕ)
read_two true x xs = some (x, xs)
read_two false x [] = none
read_two false x (y ∷ ys) = some (y, ys)

abbrev read_code : List ℕ → Option (ℕ × List ℕ)
read_code [] = none
read_code (x ∷ xs) = read_two (ltb x 255) x xs

abbrev two : Varint
two = record {
  serialize = λ n. write_two (ltb n 255) n;
  size_hint = λ n. if ltb n 255 then 1 else 2;
  deserialize = read_code;
}

two-IsVarint : IsVarint two
two-IsVarint = record {
  decodes =
      λ n rest small. elim (Bool-cases (ltb n 255)) [ inl h ↦ rw (h, h) refl | inr h ↦ rw h refl ];
  partial = λ n k small h. elim (Bool-cases (ltb n 255)) [
    | inl g ↦ rw g (one k n (rw g at h))
    | inr g ↦ rw g (pair k n (rw g at h))
  ];
  nonempty = λ n small. elim (Bool-cases (ltb n 255)) [
    | inl h ↦ rw h (omega arith)
    | inr h ↦ rw h (omega arith)
  ];
  short = λ n small. elim (Bool-cases (ltb n 255)) [
    | inl h ↦ rw h (omega arith)
    | inr h ↦ rw h (omega arith)
  ];
  hint = λ n small. elim (Bool-cases (ltb n 255)) [ inl h ↦ rw h refl | inr h ↦ rw h refl ];
  hint_mono = λ n small. elim (Bool-cases (ltb n 255)) [
    | inl h ↦ rw h (omega arith)
    | inr h ↦ rw h (omega arith)
  ];
}
  where
    one : (k n : ℕ) → k < 1 → read_code (take k (n ∷ [])) ≡ none
    one zero n h = refl
    one (suc k) n h = absurd (omega arith)

    pair : (k n : ℕ) → k < 2 → read_code (take k (255 ∷ n ∷ [])) ≡ none
    pair zero n h = refl
    pair (suc zero) n h = refl
    pair (suc (suc k)) n h = absurd (omega arith)

abbrev packets : List (List ℕ)
packets = [] ∷ (1 ∷ 2 ∷ []) ∷ (3 ∷ []) ∷ []

parts-encode_all_example : parts two 4 (encode_all two [] packets) ≡ some (rev_onto packets [])
parts-encode_all_example =
    parts-encode_all two packets two-IsVarint (omega arith, (omega arith, (omega arith, tt)))

parts_run : parts two 4 (encode_all two [] packets) ≡ some ((3 ∷ []) ∷ (1 ∷ 2 ∷ []) ∷ [] ∷ [])
unfolding parts encode_all
parts_run = refl

abbrev up_to_4 : FrameDecoder
up_to_4 = record { max_packet_size = 4 }

decode-finish_example :
    (bytes : List ℕ) × (finish two (encoder two (7 ∷ 8 ∷ [])) ≡ some bytes)
    × (2 ≤ 4 → (rest : List ℕ) → decode two up_to_4 (bytes ++ rest) ≡ (frame (7 ∷ 8 ∷ []), rest))
    × (2 ≤ 4
        → (k : ℕ) → k < length bytes
        → decode two up_to_4 (take k bytes) ≡ (incomplete, take k bytes))
    × (4 < 2
        → (rest : List ℕ) → decode two up_to_4 (bytes ++ rest) ≡ (too_large 2 4, bytes ++ rest))
decode-finish_example = decode-finish two (7 ∷ 8 ∷ []) up_to_4 two-IsVarint (omega arith)
