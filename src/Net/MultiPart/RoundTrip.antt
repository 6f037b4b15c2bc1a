-- ===== src/Net/MultiPart/RoundTrip.antt =====
-- What was encoded as parts is decoded, the last part first.
use heat_gun.Base.{
  append_assoc, ℕ, suc, ◌+◌, ◌-◌, ◌<◌, ◌≤◌, ◌≡◌, refl, sym, ap, ◌∙◌, List, [], ◌∷◌, ◌++◌, Option,
  none, some, arith, length, drop, length-append, take-length_append, drop-length_append,
  drop-append_left, leb, true, All,
}
use heat_gun.Net.Varint.{Varint, IsVarint, u64_end}
use heat_gun.Net.MultiPart.{
  reverse, extract, len_bytes, footer, next, parts, encode_all, encode_multi_part_raw, part,
}

append-nil : (xs : List ℕ) → xs ++ [] ≡ xs
append-nil [] = refl
append-nil (x ∷ xs) = ap (λ t. x ∷ t) (append-nil xs)

reverse-append : (xs ys : List ℕ) → reverse (xs ++ ys) ≡ reverse ys ++ reverse xs
unfolding reverse
reverse-append [] ys = sym (append-nil (reverse ys))
reverse-append (x ∷ xs) ys =
    ap (λ t. t ++ x ∷ []) (reverse-append xs ys) ∙ append_assoc (reverse ys) (reverse xs) (x ∷ [])

reverse-reverse : (xs : List ℕ) → reverse (reverse xs) ≡ xs
unfolding reverse
reverse-reverse [] = refl
reverse-reverse (x ∷ xs) =
    reverse-append (reverse xs) (x ∷ []) ∙ ap (λ t. x ∷ t) (reverse-reverse xs)

length-reverse : (xs : List ℕ) → length (reverse xs) ≡ length xs
unfolding reverse
length-reverse [] = refl
length-reverse (x ∷ xs) = length-append (reverse xs) (x ∷ []) ∙ rw (length-reverse xs) (omega arith)

module _ (v : Varint) (ok : IsVarint v) (buf bytes : List ℕ) (small : length bytes < u64_end) where
  abbrev size : List ℕ
  size = v.serialize (length bytes)

  abbrev packet : List ℕ
  packet = (buf ++ bytes) ++ reverse size

  length-packet : length packet ≡ length (buf ++ bytes) + length size
  length-packet = length-append (buf ++ bytes) (reverse size) ∙ rw (length-reverse size) refl

  -- The window holds the reversed length, and some bytes before it.
  window : (rest : List ℕ) × (len_bytes packet ≡ size ++ rest)
  unfolding len_bytes
  window = (
    reverse (drop (length packet - 9) (buf ++ bytes)),
    ap reverse (
          drop-append_left (length packet - 9) (buf ++ bytes) (reverse size)
            (rw length-packet (bound (ok.short (length bytes) small))))
        ∙ reverse-append (drop (length packet - 9) (buf ++ bytes)) (reverse size)
        ∙ ap (λ t. t ++ reverse (drop (length packet - 9) (buf ++ bytes))) (reverse-reverse size),
  )
    where
      bound : {k n : ℕ} → k ≤ 9 → n + k - 9 ≤ n
      bound h = omega arith

  extract-part : extract (length bytes) (buf ++ bytes) ≡ (part bytes, buf)
  unfolding extract
  extract-part =
      let n : length (buf ++ bytes) - length bytes ≡ length buf =
        rw (length-append buf bytes) (omega arith) in
      let fits : leb (length bytes) (length (buf ++ bytes)) ≡ true =
        rw (length-append buf bytes) (ground arith) in
      rw (fits, n, drop-length_append buf bytes, take-length_append buf bytes) refl

  footer-window :
      (rest : List ℕ)
      → len_bytes packet ≡ size ++ rest
      → footer v packet (some (length bytes, rest)) ≡ (part bytes, buf)
  unfolding footer
  footer-window rest e =
      let cut : length packet - (length (size ++ rest) - length rest) ≡ length (buf ++ bytes) =
        rw (length-packet, length-append size rest) (omega arith) in
      rw (e, cut, take-length_append (buf ++ bytes) (reverse size)) extract-part

  footer-part : footer v packet (v.deserialize (len_bytes packet)) ≡ (part bytes, buf)
  footer-part =
      let (rest, e) = window in
      rw e (rw (ok.decodes (length bytes) rest small) (footer-window rest e))

  next-cons :
      (xs : List ℕ) → 0 < length xs → next v xs ≡ some (footer v xs (v.deserialize (len_bytes xs)))
  unfolding next
  next-cons [] h = absurd (omega arith)
  next-cons (x ∷ xs) h = refl

  -- The decoder yields the part that was encoded last, whatever stands before it, and leaves that.
  pub next-encode_multi_part_raw :
      next v (encode_multi_part_raw v buf bytes) ≡ some (part bytes, buf)
  unfolding encode_multi_part_raw
  next-encode_multi_part_raw =
      next-cons packet (
        rw length-packet
          (longer (length (buf ++ bytes)) (length size) (ok.nonempty (length bytes) small)))
      ∙ ap some footer-part
    where
      longer : (n k : ℕ) → 0 < k → 0 < n + k
      longer n k h = omega arith

abbrev pub rev_onto : List (List ℕ) → List (List ℕ) → List (List ℕ)
rev_onto [] acc = acc
rev_onto (p ∷ ps) acc = rev_onto ps (p ∷ acc)

abbrev after : List (List ℕ) → Option (List (List ℕ)) → Option (List (List ℕ))
after ps none = none
after ps (some acc) = some (rev_onto ps acc)

after_cons :
    (p : List ℕ) (ps : List (List ℕ)) (o : Option (List (List ℕ)))
    → after ps (elim o [ none ↦ none | some acc ↦ some (p ∷ acc) ]) ≡ after (p ∷ ps) o
after_cons p ps none = refl
after_cons p ps (some acc) = refl

parts_step :
    (v : Varint) (p rest : List ℕ) (fuel : ℕ) (xs : List ℕ)
    → next v xs ≡ some (part p, rest)
    → parts v (suc fuel) xs ≡ elim (parts v fuel rest) [ none ↦ none | some acc ↦ some (p ∷ acc) ]
unfolding parts
parts_step v p rest fuel xs e = rw (parts, e) refl

parts-onto :
    (v : Varint) (ok : IsVarint v) (ps : List (List ℕ)) (fuel n : ℕ) (buf : List ℕ)
    → All (λ p. length p < u64_end) ps
    → n ≡ length ps + fuel
    → parts v n (encode_all v buf ps) ≡ after ps (parts v fuel buf)
unfolding encode_all parts
parts-onto v ok [] fuel n buf small e =
    let same : n ≡ fuel = omega arith in rw same (unchanged (parts v fuel buf))
  where
    unchanged : (o : Option (List (List ℕ))) → o ≡ after [] o
    unchanged none = refl
    unchanged (some acc) = refl
parts-onto v ok (p ∷ ps) fuel n buf small e =
    parts-onto v ok ps (suc fuel) n (encode_multi_part_raw v buf p) small.1 (omega arith)
    ∙ ap (after ps) (
        parts_step v p buf fuel (encode_multi_part_raw v buf p)
          (next-encode_multi_part_raw v ok buf p small.0))
    ∙ after_cons p ps (parts v fuel buf)

-- A packet of several parts, each shorter than 2 ^ 64 bytes, is decoded without an error into the
-- same parts, the last one first, by a loop of as many rounds as there are parts, and one that ends
-- it.
pub parts-encode_all :
    (v : Varint) (ps : List (List ℕ))
    → IsVarint v
    → All (λ p. length p < u64_end) ps
    → parts v (suc (length ps)) (encode_all v [] ps) ≡ some (rev_onto ps [])
unfolding parts next
parts-encode_all v ps ok small =
    parts-onto v ok ps 1 (suc (length ps)) [] small (omega arith) ∙ refl
