-- ===== src/Draw/Depth/Tests.antt =====
-- The generator before its last depth, and at it.
use heat_gun.Base.{◌+◌, ◌-◌, ◌≡◌, ◌⊎◌, refl, none, some, arith}
use heat_gun.Draw.Depth.{
  u32_end, one_bits, min_positive_bits, DepthGenerator, new, depth_bits, advance_epoch,
  advance_depth, InRange, Later, advance_depth-InRange,
}

abbrev deepest : DepthGenerator
deepest = record { epoch = 7; depth = one_bits - min_positive_bits - 1 }

deepest-InRange : InRange deepest
unfolding depth_bits
deepest-InRange = record { positive = omega arith; fits = omega arith; below_one = omega arith }

wraps : advance_depth deepest ≡ some (record { epoch = 8; depth = 0 })
unfolding advance_depth advance_epoch depth_bits
wraps = refl

first : advance_depth new ≡ some (record { epoch = 1; depth = 1 })
unfolding advance_depth new depth_bits
first = refl

advance_depth-InRange_example :
    (((h : DepthGenerator) × (advance_depth deepest ≡ some h) × InRange h × Later deepest h)
      ⊎ ((advance_depth deepest ≡ none) × (8 ≡ u32_end) × (depth_bits deepest + 1 ≡ one_bits)))
    × (((h : DepthGenerator) × (advance_epoch deepest ≡ some h) × InRange h × Later deepest h)
        ⊎ ((advance_epoch deepest ≡ none) × (8 ≡ u32_end)))
advance_depth-InRange_example = advance_depth-InRange deepest deepest-InRange
