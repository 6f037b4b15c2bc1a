-- ===== src/Net/BackPressure/Counting.antt =====
-- The pressure as the capacity less what is outstanding and what was refused.
use heat_gun.Base.{
  ℕ, ◌+◌, ◌-◌, ◌%◌, ◌<◌, ◌≤◌, ◌≡◌, refl, ◌∙◌, true, some, arith, ltb, leb, lt→ltb, if◌then◌else◌,
  Bool-cases, inl, inr,
}
use heat_gun.Net.BackPressure.{
  word_end, sign_end, to_isize, non_negative, fetch_sub, fetch_add, can_send, task, violated, start,
  drop_task,
}

-- What a counter stands for: its capacity, the sizes of the tasks that are held, and the sizes that
-- were refused, which nobody gives back.
pub record Ledger : Type 0 where
  pub capacity : ℕ
  pub held : ℕ
  pub refused : ℕ

-- The word is the difference, and no sum leaves the range of an `isize`.
pub record Agrees (l : Ledger) (pressure : ℕ) : Type 0 where
  pub word : pressure ≡ (l.capacity + word_end - (l.held + l.refused)) % word_end
  pub capacity_fits : l.capacity < sign_end
  pub taken_fits : l.held + l.refused ≤ sign_end

-- The word is not negative exactly while no more than the capacity is taken.
sign_lem :
    (l : Ledger) (pressure : ℕ)
    → Agrees l pressure
    → non_negative pressure ≡ leb (l.held + l.refused) l.capacity
unfolding non_negative
sign_lem l pressure a =
    rw a.word (signs l.capacity (l.held + l.refused) a.capacity_fits a.taken_fits)
  where
    signs :
        (c t : ℕ)
        → c < sign_end
        → t ≤ sign_end
        → ltb ((c + word_end - t) % word_end) sign_end ≡ leb t c
    signs c t h k = ground arith

-- What a start books: a task that is held, or a refusal.
abbrev pub booked : ℕ → Ledger → Ledger
booked size l =
    if leb (l.held + l.refused) l.capacity
    then record l { held = l.held + size }
    else record l { refused = l.refused + size }

-- While the sums stay in range, `start` does not panic; it hands out a task exactly when no more
-- than the capacity was taken before, whatever its size, and the counter agrees with the ledger in
-- which the size is booked as held, or as refused.
pub start-Agrees :
    (l : Ledger) (pressure size : ℕ)
    → Agrees l pressure
    → size < sign_end
    → l.held + l.refused + size ≤ sign_end
    → (pressure' : ℕ) × (start size pressure
        ≡ some (if leb (l.held + l.refused) l.capacity then task size else violated, pressure'))
      × Agrees (booked size l) pressure'
unfolding start to_isize fetch_sub
start-Agrees l pressure size a small fits =
    let sign = sign_lem l pressure a in
    elim (Bool-cases (leb (l.held + l.refused) l.capacity)) [
      | inl h ↦ (
        (pressure + (word_end - size)) % word_end,
        rw (lt→ltb size sign_end small, sign, h) refl,
        rw h (record {
          word = rw a.word (less l.capacity l.held l.refused size a.capacity_fits fits);
          capacity_fits = a.capacity_fits;
          taken_fits = reorder l.held l.refused size fits;
        }),
      )
      | inr h ↦ (
        (pressure + (word_end - size)) % word_end,
        rw (lt→ltb size sign_end small, sign, h) refl,
        rw h (record {
          word = rw a.word (less' l.capacity l.held l.refused size a.capacity_fits fits);
          capacity_fits = a.capacity_fits;
          taken_fits = reassoc l.held l.refused size fits;
        }),
      )
    ]
  where
    less :
        (c h r s : ℕ)
        → c < sign_end
        → h + r + s ≤ sign_end
        → ((c + word_end - (h + r)) % word_end + (word_end - s)) % word_end
          ≡ (c + word_end - (h + s + r)) % word_end
    less c h r s g k = omega arith

    less' :
        (c h r s : ℕ)
        → c < sign_end
        → h + r + s ≤ sign_end
        → ((c + word_end - (h + r)) % word_end + (word_end - s)) % word_end
          ≡ (c + word_end - (h + (r + s))) % word_end
    less' c h r s g k = omega arith

    reorder : (h r s : ℕ) → h + r + s ≤ sign_end → h + s + r ≤ sign_end
    reorder h r s k = omega arith

    reassoc : (h r s : ℕ) → h + r + s ≤ sign_end → h + (r + s) ≤ sign_end
    reassoc h r s k = omega arith

-- Dropping a task gives its size back.
drop_task-Agrees :
    (l : Ledger) (pressure size : ℕ)
    → Agrees l pressure
    → size ≤ l.held
    → Agrees (record l { held = l.held - size }) (drop_task size pressure)
unfolding drop_task fetch_add
drop_task-Agrees l pressure size a fits = record {
  word = rw a.word (more l.capacity l.held l.refused size a.capacity_fits a.taken_fits fits);
  capacity_fits = a.capacity_fits;
  taken_fits = lower l.held l.refused size a.taken_fits;
}
  where
    more :
        (c h r s : ℕ)
        → c < sign_end
        → h + r ≤ sign_end
        → s ≤ h
        → ((c + word_end - (h + r)) % word_end + s) % word_end
          ≡ (c + word_end - (h - s + r)) % word_end
    more c h r s g k f = omega arith

    lower : (h r s : ℕ) → h + r ≤ sign_end → h - s + r ≤ sign_end
    lower h r s k = omega arith

-- A refusal is forgotten: where the capacity covers everything that was ever refused, the counter
-- lets packets through again once every task is dropped.
pub can_send-refused :
    (l : Ledger) (pressure : ℕ)
    → Agrees l pressure
    → l.refused ≤ l.capacity
    → can_send (drop_task l.held pressure) ≡ true
unfolding can_send
can_send-refused l pressure a covered =
    let after = drop_task-Agrees l pressure l.held a (omega arith) in
    sign_lem (record l { held = l.held - l.held }) (drop_task l.held pressure) after
    ∙ within l.held l.refused l.capacity covered
  where
    within : (h r c : ℕ) → r ≤ c → leb (h - h + r) c ≡ true
    within h r c k = ground arith
