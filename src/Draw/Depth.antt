-- ===== src/Draw/Depth.antt =====
-- src/engine/hg-ctx2d/src/base/depth.rs, `DepthGenerator`: ever greater depths below 1, in epochs. A
-- float is its 32 bits; floats that are not negative are ordered as their bits are. `none` is a
-- panic, the overflow of an addition of `u32`s included.
mod Tests
use heat_gun.Base.{
  ℕ, ◌+◌, ◌-◌, ◌*◌, ◌^◌, ◌<◌, ◌≤◌, ◌≡◌, refl, ◌∙◌, Bool, true, false, ◌⊎◌, inl, inr, Option, none,
  some, arith, ltb, leb, if◌then◌else◌, ◌>>=◌, Bool-cases,
}

abbrev pub u32_end : ℕ
u32_end = 2 ^ 32

-- `f32::MIN_POSITIVE.to_bits()`, and the bits of `1.`.
abbrev pub min_positive_bits : ℕ
min_positive_bits = 2 ^ 23

abbrev pub one_bits : ℕ
one_bits = 127 * 2 ^ 23

pub record DepthGenerator : Type 0 where
  pub epoch : ℕ
  pub depth : ℕ

-- `DepthGenerator::new`.
unfoldable pub new : DepthGenerator
new = record { epoch = 1; depth = 0 }

-- The bits of `DepthGenerator::depth`.
unfoldable pub depth_bits : DepthGenerator → ℕ
depth_bits g = min_positive_bits + g.depth

unfoldable pub advance_epoch : DepthGenerator → Option DepthGenerator
advance_epoch g =
    if ltb (g.epoch + 1) u32_end then some (record { epoch = g.epoch + 1; depth = 0 }) else none

unfoldable pub advance_depth : DepthGenerator → Option DepthGenerator
unfolding depth_bits advance_epoch
advance_depth g =
    if ltb (g.depth + 1) u32_end
    then (if leb one_bits (depth_bits (record g { depth = g.depth + 1 }))
        then advance_epoch (record g { depth = g.depth + 1 })
        else some (record g { depth = g.depth + 1 }))
    else none

-- The epoch is a `NonZeroU32`, and the depth is that of a float below 1.
pub record InRange (g : DepthGenerator) : Type 0 where
  pub positive : 0 < g.epoch
  pub fits : g.epoch < u32_end
  pub below_one : depth_bits g < one_bits

-- What is drawn later lies in a later epoch, or in the same at a greater depth.
abbrev pub Later : DepthGenerator → DepthGenerator → Type 0
Later g h = (g.epoch < h.epoch) ⊎ ((g.epoch ≡ h.epoch) × (depth_bits g < depth_bits h))

-- From a generator in range, `advance_depth` gives a later generator in range, and panics only at
-- the last depth of the last epoch; so does `advance_epoch` with the panic in the last epoch.
pub advance_depth-InRange :
    (g : DepthGenerator)
    → InRange g
    → (((h : DepthGenerator) × (advance_depth g ≡ some h) × InRange h × Later g h)
        ⊎ ((advance_depth g ≡ none) × (g.epoch + 1 ≡ u32_end) × (depth_bits g + 1 ≡ one_bits)))
      × (((h : DepthGenerator) × (advance_epoch g ≡ some h) × InRange h × Later g h)
          ⊎ ((advance_epoch g ≡ none) × (g.epoch + 1 ≡ u32_end)))
unfolding advance_depth advance_epoch depth_bits
advance_depth-InRange g r = (deeper, next_epoch)
  where
    epoch_room : ltb (g.epoch + 1) u32_end ≡ false → g.epoch + 1 ≡ u32_end
    epoch_room h = ground (arith, r.fits)

    depth_room : ltb (g.depth + 1) u32_end ≡ true
    depth_room = ground (arith, r.below_one)

    last :
        leb one_bits (min_positive_bits + (g.depth + 1)) ≡ true
        → min_positive_bits + g.depth + 1 ≡ one_bits
    last h = ground (arith, r.below_one)

    not_last :
        leb one_bits (min_positive_bits + (g.depth + 1)) ≡ false
        → min_positive_bits + (g.depth + 1) < one_bits
    not_last h = ground arith

    smaller : ltb (g.epoch + 1) u32_end ≡ true → g.epoch + 1 < u32_end
    smaller h = ground arith

    next_epoch :
        ((h : DepthGenerator) × (advance_epoch g ≡ some h) × InRange h × Later g h)
        ⊎ ((advance_epoch g ≡ none) × (g.epoch + 1 ≡ u32_end))
    next_epoch = elim (Bool-cases (ltb (g.epoch + 1) u32_end)) [
      | inl h ↦ inl (
        record { epoch = g.epoch + 1; depth = 0 },
        rw h refl,
        record { positive = omega arith; fits = smaller h; below_one = omega arith },
        inl (omega arith),
      )
      | inr h ↦ inr (rw h refl, epoch_room h)
    ]

    deeper :
        ((h : DepthGenerator) × (advance_depth g ≡ some h) × InRange h × Later g h)
        ⊎ ((advance_depth g ≡ none) × (g.epoch + 1 ≡ u32_end) × (depth_bits g + 1 ≡ one_bits))
    deeper = elim (Bool-cases (leb one_bits (min_positive_bits + (g.depth + 1)))) [
      | inl h ↦ elim (Bool-cases (ltb (g.epoch + 1) u32_end)) [
        | inl k ↦ inl (
          record { epoch = g.epoch + 1; depth = 0 },
          rw (depth_room, h, k) refl,
          record { positive = omega arith; fits = smaller k; below_one = omega arith },
          inl (omega arith),
        )
        | inr k ↦ inr (rw (depth_room, h, k) refl, epoch_room k, last h)
      ]
      | inr h ↦ inl (
        record g { depth = g.depth + 1 },
        rw (depth_room, h) refl,
        record { positive = r.positive; fits = r.fits; below_one = not_last h },
        inr (refl, omega arith),
      )
    ]
