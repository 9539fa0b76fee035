-- ===== src/Orders/Settled.antt =====
-- The loop of `_refresh_order`: it ends with no task left that has a spoiled dependency.
use doppel_agent.Prelude.{
  ℕ, zero, suc, ◌≤◌, ◌<◌, String, ◌≡◌, refl, Bool, true, false, not, List, [], ◌∷◌, Option, none,
  some, arith, if◌then◌else◌, length, all, inl, inr, ◌⊎◌, Bool-cases,
}
use doppel_agent.Orders.Tables.{TaskRow, Order, is_pending}
use doppel_agent.Orders.Queries.{find_row}
use doppel_agent.Orders.States.{
  update_rows, spoils, gets_blocked, block, block_round, any_row, block_rows, refresh_order,
}

abbrev count_pending : List TaskRow → ℕ
count_pending [] = 0
count_pending (t ∷ ts) = if is_pending t.status then suc (count_pending ts) else count_pending ts

count_pending-length_le : (rows : List TaskRow) → count_pending rows ≤ length rows
count_pending-length_le [] = omega arith
count_pending-length_le (t ∷ ts) = ground (arith, count_pending-length_le ts)

module _ (test : TaskRow → Bool)
    (h : (t : TaskRow) → test t ≡ true → is_pending t.status ≡ true) where
  update_rows-le :
      (rows : List TaskRow) → count_pending (update_rows test block rows) ≤ count_pending rows
  unfolding update_rows
  update_rows-le [] = omega arith
  update_rows-le (t ∷ ts) = ground (arith, h t, update_rows-le ts)

  update_rows-lt :
      (rows : List TaskRow)
      → any_row test rows ≡ true
      → count_pending (update_rows test block rows) < count_pending rows
  unfolding update_rows any_row
  update_rows-lt [] k = absurd (ground (arith, k))
  update_rows-lt (t ∷ ts) k = ground (arith, k, h t, update_rows-lt ts, update_rows-le ts)

block_rows-closed :
    (fuel revision : ℕ) (rows : List TaskRow)
    → count_pending rows < fuel
    → any_row
        (gets_blocked revision (block_rows fuel revision rows))
        (block_rows fuel revision rows)
      ≡ false
unfolding block_rows block_round
block_rows-closed zero revision rows h = absurd (omega (arith, h))
block_rows-closed (suc fuel) revision rows h =
    elim (Bool-cases (any_row (gets_blocked revision rows) rows)) [
      | inl more ↦ rw more (
          block_rows-closed fuel revision (block_round revision rows) (
            omega (
              arith,
              h,
              update_rows-lt (gets_blocked revision rows) (λ t k. ground (arith, k)) rows more,
            )))
      | inr done ↦ rw (done, done) refl
    ]

find_row-block_round :
    (test : TaskRow → Bool) (revision : ℕ) (id : String) (rows : List TaskRow)
    → find_row revision id (update_rows test block rows) ≡ elim (find_row revision id rows) [
      | none ↦ none
      | some t ↦ some (if test t then block t else t)
    ]
unfolding find_row update_rows
find_row-block_round test revision id [] = refl
find_row-block_round test revision id (t ∷ ts) =
    ground (arith, find_row-block_round test revision id ts)

-- Whether the plan has a task among `ds` that has failed, is cancelled or blocked.
abbrev pub has_spoiled : ℕ → List TaskRow → List String → Bool
has_spoiled revision rows ds = not (all (λ d. not (spoils (find_row revision d rows))) ds)

-- A row is as it was, or it was pending, is blocked, and a dependency of its task is spoiled.
abbrev pub IsKept : ℕ → List TaskRow → TaskRow → Option TaskRow → Type 0
IsKept revision rows t after =
    (after ≡ some t)
    ⊎ ((is_pending t.status ≡ true)
        × (after ≡ some (block t))
        × (has_spoiled revision rows t.task.dependencies ≡ true))

spoils-stays :
    (revision : ℕ) (rows : List TaskRow) (d : String)
    → spoils (find_row revision d rows) ≡ true
    → spoils (find_row revision d (block_round revision rows)) ≡ true
unfolding block_round
spoils-stays revision rows d h =
    ground (arith, h, find_row-block_round (gets_blocked revision rows) revision d rows)

spoils-block_rows :
    (fuel revision : ℕ) (rows : List TaskRow) (d : String)
    → spoils (find_row revision d rows) ≡ true
    → spoils (find_row revision d (block_rows fuel revision rows)) ≡ true
unfolding block_rows
spoils-block_rows zero revision rows d h = h
spoils-block_rows (suc fuel) revision rows d h =
    elim (Bool-cases (any_row (gets_blocked revision rows) rows)) [
      | inl more ↦ rw more (
          spoils-block_rows fuel revision (block_round revision rows) d
            (spoils-stays revision rows d h))
      | inr done ↦ rw done h
    ]

has_spoiled_mono :
    (revision : ℕ) (rows later : List TaskRow) (ds : List String)
    → ((d : String)
        → spoils (find_row revision d rows) ≡ true
        → spoils (find_row revision d later) ≡ true)
    → has_spoiled revision rows ds ≡ true
    → has_spoiled revision later ds ≡ true
has_spoiled_mono revision rows later [] f h = absurd (ground (arith, h))
has_spoiled_mono revision rows later (d ∷ ds) f h =
    ground (arith, h, f d, has_spoiled_mono revision rows later ds f)

block_rows-IsKept :
    (fuel revision : ℕ) (id : String) (rows : List TaskRow) (t : TaskRow)
    → find_row revision id rows ≡ some t
    → IsKept revision
        (block_rows fuel revision rows)
        t
        (find_row revision id (block_rows fuel revision rows))
unfolding block_rows block_round
block_rows-IsKept zero revision id rows t h = inl h
block_rows-IsKept (suc fuel) revision id rows t h =
    elim (Bool-cases (any_row (gets_blocked revision rows) rows)) [
      | inr done ↦ rw done (inl h)
      | inl more ↦ rw more (
          by_test (Bool-cases (gets_blocked revision rows t))
            (λ b. block_rows-IsKept fuel revision id (block_round revision rows) (block t) (
              ground
                (arith, h, b, find_row-block_round (gets_blocked revision rows) revision id rows)))
            (λ b. block_rows-IsKept fuel revision id (block_round revision rows) t (
              ground
                (arith, h, b, find_row-block_round (gets_blocked revision rows) revision id rows))))
    ]
  where
    after : List TaskRow
    after = block_rows fuel revision (block_round revision rows)

    spoiled :
        gets_blocked revision rows t ≡ true → has_spoiled revision after t.task.dependencies ≡ true
    spoiled b =
        has_spoiled_mono revision rows after t.task.dependencies
          (λ d k.
            spoils-block_rows fuel revision (block_round revision rows) d
              (spoils-stays revision rows d k))
          (ground (arith, b))

    of_blocked :
        gets_blocked revision rows t ≡ true
        → IsKept revision after (block t) (find_row revision id after)
        → IsKept revision after t (find_row revision id after)
    of_blocked b (inl same) = inr (ground (arith, b), same, spoiled b)
    of_blocked b (inr (off, same, rest)) = absurd (ground (arith, off))

    by_test :
        (gets_blocked revision rows t ≡ true) ⊎ (gets_blocked revision rows t ≡ false)
        → (gets_blocked revision rows t ≡ true
            → IsKept revision after (block t) (find_row revision id after))
        → (gets_blocked revision rows t ≡ false
            → IsKept revision after t (find_row revision id after))
        → IsKept revision after t (find_row revision id after)
    by_test (inl b) f g = of_blocked b (f b)
    by_test (inr b) f g = g b

-- After an order is refreshed, a further statement of the loop would change no row: no pending task of
-- the active plan has a dependency that has failed, is cancelled or blocked. Every row of the plan is
-- as it was, or it was pending, is blocked, and has such a dependency.
pub refresh_order-settles :
    (order : Order) (id : String) (t : TaskRow)
    → find_row order.active_revision id order.tasks ≡ some t
    → IsKept order.active_revision
        (refresh_order order).tasks
        t
        (find_row order.active_revision id (refresh_order order).tasks)
      × (any_row
            (gets_blocked order.active_revision (refresh_order order).tasks)
            (refresh_order order).tasks
          ≡ false)
unfolding refresh_order
refresh_order-settles order id t h = (
  block_rows-IsKept (suc (length order.tasks)) order.active_revision id order.tasks t h,
  block_rows-closed (suc (length order.tasks)) order.active_revision order.tasks
      (omega (arith, count_pending-length_le order.tasks)),
)
