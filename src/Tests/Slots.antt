-- ===== src/Tests/Slots.antt =====
-- Threads at the semaphore, and requests at the rate limiter, at concrete schedules.
use nighwatch.Common.{ℕ, ◌+◌, ◌≡◌, refl, true, false, some, [], ◌∷◌, arith, List, Bool}
use nighwatch.Python.Ascii.{ascii}
use nighwatch.Security.Rate.Ledger.{
  refuse, permitted, pause, ledger_step, ledger_run, decisions_of, limiter_of, acquire_all,
  acquire_all-ledger_run,
}
use nighwatch.Tests.Fixtures.{scope_runs, config}
use nighwatch.Gateway.Slots.{Slots, holding, refused, move, move_at, run_schedule, start}
use nighwatch.Gateway.Slots.Laws.{holders, run_schedule-holders}
use nighwatch.Gateway.Slots.Progress.{Drains, run_schedule-Drains}

abbrev times : List ascii.Float
times = 1000 ∷ 1200 ∷ 1500 ∷ 9000 ∷ []

-- Two of three threads are in, and the third waits until the switch is turned on.
abbrev crowd : Slots
crowd = record { permits = 0; bound = 2; threads = holding ∷ holding ∷ refused ∷ [] }

abbrev rush : List (ℕ × Bool)
rush = (0, false) ∷ (1, false) ∷ (2, false) ∷ (1, false) ∷ (0, false) ∷ (2, false) ∷ (2, true) ∷ []

crowd_test : run_schedule (start 2 3) rush ≡ some crowd
unfolding run_schedule move_at move start
crowd_test = refl

run_schedule-holders_example :
    (s : Slots) × (run_schedule (start 2 3) rush ≡ some s) × (s.permits + holders s.threads ≡ 2)
run_schedule-holders_example = run_schedule-holders 2 3 rush

run_schedule-Drains_example : Drains crowd
run_schedule-Drains_example = run_schedule-Drains 2 3 rush crowd (ground arith) crowd_test

-- Four requests at a budget of two, half a unit apart at the least.
acquire_all-ledger_run_example : acquire_all ascii (limiter_of ascii config.limits []) times ≡ (
  decisions_of ascii (ledger_run ascii config.limits [] times).0,
  limiter_of ascii config.limits (ledger_run ascii config.limits [] times).1,
)
acquire_all-ledger_run_example = acquire_all-ledger_run ascii config.limits [] times

ledger_test :
    (ledger_run ascii config.limits [] times).0
    ≡ (permitted, 1) ∷ (pause 300, 1) ∷ (permitted, 2) ∷ (refuse, 2) ∷ []
unfolding ledger_run ledger_step scope_runs
ledger_test = refl
