-- ===== src/Draw/Runs.antt =====
-- src/engine/hg-ctx2d/src/base/depth.rs, `InstanceRuns`: the instances that are drawn in one epoch
-- form a run. `none` is a panic, as of a debug build.
pub mod Ranges
mod Tests
use heat_gun.Base.{
  ℕ, ◌+◌, ◌^◌, Bool, true, false, ◌||◌, List, [], ◌∷◌, ◌++◌, Option, none, some, ltb, ◌==◌, length,
  get_elem?, if◌then◌else◌, ◌>>=◌,
}

pub record InstanceRuns : Type 0 where
  pub starts : List ℕ
  pub last_epoch : Option ℕ
  pub len : ℕ

-- `InstanceRuns::new`, and what `reset` leaves.
unfoldable pub new : InstanceRuns
new = record { starts = []; last_epoch = none; len = 0 }

unfoldable pub reset : InstanceRuns → InstanceRuns
reset r = record r { starts = []; last_epoch = none; len = 0 }

-- The tests on the last epoch.
abbrev pub is_epoch : ℕ → Option ℕ → Bool
is_epoch epoch none = false
is_epoch epoch (some last) = last == epoch

abbrev pub epoch_or_zero : Option ℕ → ℕ
epoch_or_zero none = 0
epoch_or_zero (some last) = last

-- `u32` addition.
unfoldable pub add_len : ℕ → ℕ → Option ℕ
add_len len count = if ltb (len + count) (2 ^ 32) then some (len + count) else none

unfoldable pub push : ℕ → ℕ → InstanceRuns → Option (Option ℕ × InstanceRuns)
unfolding add_len
push epoch count r = add_len r.len count >>= λ len.
    if is_epoch epoch r.last_epoch
    then some (none, record r { len = len })
    else (if ltb (epoch_or_zero r.last_epoch) epoch
        then some (
          some (length r.starts),
          record { starts = r.starts ++ r.len ∷ []; last_epoch = some epoch; len = len },
        )
        else none)

abbrev pub unwrap_or : Option ℕ → ℕ → ℕ
unwrap_or none d = d
unwrap_or (some a) d = a

unfoldable pub range : ℕ → InstanceRuns → Option (ℕ × ℕ)
range idx r = do
  start ← get_elem? r.starts idx
  some (start, unwrap_or (get_elem? r.starts (idx + 1)) r.len)
