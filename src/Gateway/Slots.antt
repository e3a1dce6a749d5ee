-- ===== src/Gateway/Slots.antt =====
-- `ToolGateway.execution_slot` of gateway.py, which is held around each exchange. Threads share the
-- semaphore; a schedule says which of them moves next, and whether the kill switch is on then.
pub mod Laws
pub mod Progress
use nighwatch.Common.{
  ℕ, zero, suc, Bool, true, false, Option, none, some, List, [], ◌∷◌, ltb, if◌then◌else◌,
}

-- Before the `with`, in `acquire`, in the body, after `release`, and after `assert_live` has raised.
pub data Phase : Type 0 where
  outside acquiring holding left refused : Phase

-- The semaphore's counter, the number it began with, and the threads.
pub record Slots : Type 0 where
  pub permits : ℕ
  pub bound : ℕ
  pub threads : List Phase

-- A thread cannot move, `release` raises `ValueError`, or the counter and the threads that result.
pub data Moved : Type 0 where
  stays raises : Moved
  goes : ℕ → List Phase → Moved

-- One thread moves: it enters; it is let in where a permit is left, or goes on waiting, or gives up if
-- the kill switch is on; it releases, also after an exception.
unfoldable pub move : ℕ → ℕ → Bool → Phase → List Phase → Moved
move bound permits tripped outside others = goes permits (acquiring ∷ others)
move bound zero true acquiring others = goes zero (refused ∷ others)
move bound zero false acquiring others = stays
move bound (suc permits) tripped acquiring others = goes permits (holding ∷ others)
move bound permits tripped holding others =
    if ltb permits bound then goes (suc permits) (left ∷ others) else raises
move bound permits tripped left others = stays
move bound permits tripped refused others = stays

abbrev pub behind : Phase → Moved → Moved
behind p stays = stays
behind p raises = raises
behind p (goes permits threads) = goes permits (p ∷ threads)

-- The thread at a place moves.
unfoldable pub move_at : ℕ → ℕ → Bool → List Phase → ℕ → Moved
unfolding move
move_at bound permits tripped [] i = stays
move_at bound permits tripped (p ∷ threads) zero = move bound permits tripped p threads
move_at bound permits tripped (p ∷ threads) (suc i) =
    behind p (move_at bound permits tripped threads i)

abbrev pub after_move : Slots → Moved → Option Slots
after_move s stays = some s
after_move s raises = none
after_move s (goes permits threads) =
    some (record { permits = permits; bound = s.bound; threads = threads })

-- The threads move as the schedule says, where they can; `none` once a `release` raises.
unfoldable pub run_schedule : Slots → List (ℕ × Bool) → Option Slots
unfolding move_at
run_schedule s [] = some s
run_schedule s ((i, tripped) ∷ schedule) =
    elim (after_move s (move_at s.bound s.permits tripped s.threads i)) [
      | none ↦ none
      | some s' ↦ run_schedule s' schedule
    ]

all_outside : ℕ → List Phase
all_outside zero = []
all_outside (suc n) = outside ∷ all_outside n

-- A semaphore of `max_concurrent_requests`, and threads that have not entered.
unfoldable pub start : ℕ → ℕ → Slots
unfolding all_outside
start max_concurrent threads = record {
  permits = max_concurrent;
  bound = max_concurrent;
  threads = all_outside threads;
}
