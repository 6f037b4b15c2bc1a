-- ===== src/Net/Frame/RoundTrip.antt =====
-- A frame is decoded once it is there in full, and a frame above the limit is refused.
use heat_gun.Base.{
  append_assoc, ℕ, zero, suc, ◌+◌, ◌-◌, ◌<◌, ◌≤◌, ◌≡◌, refl, ap, ◌∙◌, List, [], ◌∷◌, ◌++◌, some,
  arith, length, take, drop, length-append, take-length_append, drop-length_append, length-take,
  length-replicate, take-append_left, leb, true, false, Bool-cases, inl, inr, replicate,
}
use heat_gun.Net.Varint.{Varint, IsVarint, u64_end, isize_max}
use heat_gun.Net.Frame.{
  FrameDecoder, incomplete, frame, too_large, encoder, finish, decode, decode_header, decode_body,
}

le→leb : (a b : ℕ) → a ≤ b → leb a b ≡ true
le→leb a b h = ground arith

lt→leb : (a b : ℕ) → b < a → leb a b ≡ false
lt→leb a b h = ground arith

drop-start : (n : ℕ) (xs ys : List ℕ) → length xs ≡ n → drop n (xs ++ ys) ≡ ys
drop-start n xs ys e = rw (← e) (drop-length_append xs ys)

take-start : (n : ℕ) (xs ys : List ℕ) → length xs ≡ n → take n (xs ++ ys) ≡ xs
take-start n xs ys e = rw (← e) (take-length_append xs ys)

take-append_more :
    (k : ℕ) (xs ys : List ℕ)
    → length xs ≤ k
    → (t : List ℕ) × (take k (xs ++ ys) ≡ xs ++ t) × (length t ≤ k - length xs)
take-append_more k [] ys h = (take k ys, refl, rw (length-take k ys) (omega arith))
take-append_more zero (x ∷ xs) ys h = absurd (omega arith)
take-append_more (suc k) (x ∷ xs) ys h =
    let (t, e, l) = take-append_more k xs ys (omega arith) in (t, ap (λ t. x ∷ t) e, omega arith)

module _ (v : Varint) (ok : IsVarint v) (body : List ℕ) (small : length body ≤ isize_max) where
  abbrev size : List ℕ
  size = v.serialize (length body)

  in_range : length body < u64_end
  in_range = omega arith

  -- The room that a new encoder keeps is enough: `finish` puts the length before the body.
  finish-encoder : finish v (encoder v body) ≡ some (size ++ body)
  unfolding finish encoder
  finish-encoder =
      let room = v.size_hint isize_max in
      let fits = ok.hint_mono (length body) small in
      let start = room - v.size_hint (length body) in
      let whole : leb (v.size_hint (length body)) (length {A = ℕ} (replicate room 0)) ≡ true =
        rw (length-replicate {A = ℕ} room 0) (le→leb (v.size_hint (length body)) room fits) in
      rw
        (
          whole,
          length-replicate {A = ℕ} room 0,
          append_assoc (take start (replicate room 0)) size body,
        )
        (ap some (
          drop-start start (take start (replicate room 0)) (size ++ body) (
            length-take start (replicate room 0)
            ∙ rw (length-replicate {A = ℕ} room 0) (omega arith))))

  -- With enough of the source there, the frame comes out and the rest is left.
  decode_full :
      (d : FrameDecoder) (rest : List ℕ)
      → length body ≤ d.max_packet_size
      → decode v d (size ++ (body ++ rest)) ≡ (frame body, rest)
  unfolding decode decode_header decode_body
  decode_full d rest fits =
      let header : length (size ++ (body ++ rest)) - length (body ++ rest) ≡ length size =
        rw (length-append size (body ++ rest)) (omega arith) in
      let all : leb (length body) (length (body ++ rest)) ≡ true =
        le→leb (length body) (length (body ++ rest)) (rw (length-append body rest) (omega arith)) in
      rw
        (
          ok.decodes (length body) (body ++ rest) in_range,
          le→leb (length body) d.max_packet_size fits,
          all,
          header,
          drop-length_append size (body ++ rest),
          take-length_append body rest,
          drop-length_append body rest,
        )
        refl

  decode_refused :
      (d : FrameDecoder) (rest : List ℕ)
      → d.max_packet_size < length body
      → decode v d (size ++ (body ++ rest))
        ≡ (too_large (length body) d.max_packet_size, size ++ (body ++ rest))
  unfolding decode decode_header
  decode_refused d rest large =
      rw
        (
          ok.decodes (length body) (body ++ rest) in_range,
          lt→leb (length body) d.max_packet_size large,
        )
        refl

  -- A part of the frame alone gives nothing, and is kept.
  decode_partial :
      (d : FrameDecoder) (k : ℕ)
      → length body ≤ d.max_packet_size
      → k < length (size ++ body)
      → decode v d (take k (size ++ body)) ≡ (incomplete, take k (size ++ body))
  unfolding decode decode_header decode_body
  decode_partial d k fits short = elim (Bool-cases (leb (length size) k)) [
    | inl h ↦
        let (t, e, l) = take-append_more k size body (leb→le (length size) k h) in
        rw
          (
            e,
            ok.decodes (length body) t in_range,
            le→leb (length body) d.max_packet_size fits,
            lt→leb (length body) (length t) (
                less k (length size) (length body) (length t) (leb→le (length size) k h) l
                  (rw (length-append size body) at short)),
          )
          refl
    | inr h ↦
        let cut : take k (size ++ body) ≡ take k size =
          take-append_left k size body (small_k k (length size) h) in
        rw (cut, ok.partial (length body) k in_range (small_k' k (length size) h)) refl
  ]
    where
      leb→le : (a b : ℕ) → leb a b ≡ true → a ≤ b
      leb→le a b h = ground arith

      less : (k s b t : ℕ) → s ≤ k → t ≤ k - s → k < s + b → t < b
      less k s b t g l h = omega arith

      small_k : (k s : ℕ) → leb s k ≡ false → k ≤ s
      small_k k s h = ground arith

      small_k' : (k s : ℕ) → leb s k ≡ false → k < s
      small_k' k s h = ground arith

-- An encoder whose body has a length that an `isize` holds finishes without a panic; a decoder
-- whose limit admits the body gives it back and leaves what follows it, and from any shorter prefix
-- of the frame gives nothing and takes nothing; a decoder with a lower limit refuses the frame.
pub decode-finish :
    (v : Varint) (body : List ℕ) (d : FrameDecoder)
    → IsVarint v
    → length body ≤ isize_max
    → (bytes : List ℕ) × (finish v (encoder v body) ≡ some bytes)
      × (length body ≤ d.max_packet_size
          → (rest : List ℕ) → decode v d (bytes ++ rest) ≡ (frame body, rest))
      × (length body ≤ d.max_packet_size
          → (k : ℕ) → k < length bytes
          → decode v d (take k bytes) ≡ (incomplete, take k bytes))
      × (d.max_packet_size < length body
          → (rest : List ℕ)
          → decode v d (bytes ++ rest) ≡ (too_large (length body) d.max_packet_size, bytes ++ rest))
decode-finish v body d ok small =
    let bytes = v.serialize (length body) in
    (
      bytes ++ body,
      finish-encoder v ok body small,
      (λ fits rest. rw (append_assoc bytes body rest) (decode_full v ok body small d rest fits)),
      (λ fits k short. decode_partial v ok body small d k fits short),
      λ large rest. rw (append_assoc bytes body rest) (decode_refused v ok body small d rest large),
    )
