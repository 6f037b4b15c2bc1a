-- ===== src/Net/Frame.antt =====
-- src/engine/hg-engine-common/src/net/codec.rs: `FrameEncoder` and `FrameDecoder`.
pub mod RoundTrip
use heat_gun.Base.{
  ℕ, ◌-◌, List, [], ◌++◌, Option, none, some, length, take, drop, leb, if◌then◌else◌, replicate,
}
use heat_gun.Net.Varint.{Varint, isize_max}

-- `FrameEncoder`: the room for the header, and the data.
pub record FrameEncoder : Type 0 where
  pub header : List ℕ
  pub body : List ℕ

-- What `decode` returns: `Ok(None)`, `Ok(Some(..))` or the error.
pub data Decoded : Type 0 where
  incomplete : Decoded
  frame : List ℕ → Decoded
  too_large : ℕ → ℕ → Decoded

pub record FrameDecoder : Type 0 where
  pub max_packet_size : ℕ

-- The end of `decode`: the body is split off behind the header.
decode_body : ℕ → ℕ → List ℕ → List ℕ → Decoded × List ℕ
decode_body header_len packet_len cursor src =
    if leb packet_len (length cursor)
    then (frame (take packet_len (drop header_len src)), drop packet_len (drop header_len src))
    else (incomplete, src)

module _ (v : Varint) where
  -- `FrameEncoder::new`, then the bytes that are written.
  unfoldable pub encoder : List ℕ → FrameEncoder
  encoder body = record { header = replicate (v.size_hint isize_max) 0; body = body }

  -- `finish`. Where the room does not hold the header, the subtraction overflows: a panic.
  unfoldable pub finish : FrameEncoder → Option (List ℕ)
  finish e =
      let packet_len = length e.body in
      let header_len = v.size_hint packet_len in
      let header_start = length e.header - header_len in
      if leb header_len (length e.header)
      then some
          (drop header_start ((take header_start e.header ++ v.serialize packet_len) ++ e.body))
      else none

  decode_header : FrameDecoder → List ℕ → Option (ℕ × List ℕ) → Decoded × List ℕ
  unfolding decode_body
  decode_header d src none = (incomplete, src)
  decode_header d src (some (packet_len, cursor)) =
      if leb packet_len d.max_packet_size
      then decode_body (length src - length cursor) packet_len cursor src
      else (too_large packet_len d.max_packet_size, src)

  -- `FrameDecoder::decode`: the result, and what is left of `src`.
  unfoldable pub decode : FrameDecoder → List ℕ → Decoded × List ℕ
  unfolding decode_header
  decode d src = decode_header d src (v.deserialize src)
