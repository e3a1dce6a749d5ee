-- ===== src/Security/Rate/Ledger.antt =====
-- What the rate limiter promises, as a ledger of the times at which a request was permitted, newest
-- first; the limiter keeps only their number and the newest.
use nighwatch.Common.{
  ℕ, ◌+◌, true, false, Option, none, some, List, [], ◌∷◌, ◌≡◌, refl, arith, length, leb, Bool-cases,
  inl, inr, if◌then◌else◌,
}
use nighwatch.Python.Runtime.{Runtime}
use nighwatch.Models.Policy.{RateLimits}
use nighwatch.Security.Rate.{RateDecision, RateLimiter, interval, acquire, pace, permit}

-- The budget is used up, a pause is asked for, or the request is permitted.
pub data Answer (R : Runtime) : Type 0 where
  refuse permitted : Answer R
  pause : R.Float → Answer R

unfoldable newest : {A : Type 0} → List A → Option A
newest [] = none
newest (x ∷ xs) = some x

module _ (R : Runtime) where
  -- The answer to a request at a time, and the ledger after it.
  abbrev spaced : RateLimits R → List R.Float → R.Float → Answer R × List R.Float
  spaced limits [] now = (permitted, now ∷ [])
  spaced limits (last ∷ older) now =
      if R.float_lt (R.float_sub now last) (interval R limits)
      then (pause (R.float_sub (interval R limits) (R.float_sub now last)), last ∷ older)
      else (permitted, now ∷ last ∷ older)

  unfoldable pub ledger_step : RateLimits R → List R.Float → R.Float → Answer R × List R.Float
  ledger_step limits ledger now =
      if leb limits.max_requests (length ledger) then (refuse, ledger) else spaced limits ledger now

  -- The answers at a list of times, one after the other, and the ledger at the end.
  unfoldable pub ledger_run :
      RateLimits R → List R.Float → List R.Float → List (Answer R × ℕ) × List R.Float
  unfolding ledger_step
  ledger_run limits ledger [] = ([], ledger)
  ledger_run limits ledger (now ∷ times) =
      let (answer, next) = ledger_step limits ledger now in
      let (answers, end_ledger) = ledger_run limits next times in
      ((answer, length next) ∷ answers, end_ledger)

  -- An answer and the number of permits as the limiter's decision.
  unfoldable pub decision_of : Answer R × ℕ → RateDecision R
  decision_of (refuse, n) = record {
    allowed = false;
    wait_seconds = R.float 0;
    reason = "request budget exhausted";
    request_count = n;
  }
  decision_of (pause wait, n) = record {
    allowed = true;
    wait_seconds = wait;
    reason = "rate limit requires pacing";
    request_count = n;
  }
  decision_of (permitted, n) = record {
    allowed = true;
    wait_seconds = R.float 0;
    reason = "request permitted";
    request_count = n;
  }

  unfoldable pub decisions_of : List (Answer R × ℕ) → List (RateDecision R)
  unfolding decision_of
  decisions_of [] = []
  decisions_of (a ∷ rest) = decision_of a ∷ decisions_of rest

  -- The limiter that a ledger is.
  unfoldable pub limiter_of : RateLimits R → List R.Float → RateLimiter R
  unfolding newest
  limiter_of limits ledger = record {
    limits = limits;
    last_request_at = newest ledger;
    request_count = length ledger;
  }

  -- `acquire` at a list of times, one after the other.
  unfoldable pub acquire_all : RateLimiter R → List R.Float → List (RateDecision R) × RateLimiter R
  acquire_all l [] = ([], l)
  acquire_all l (now ∷ times) =
      let (decision, next) = acquire R l now in
      let (decisions, last) = acquire_all next times in (decision ∷ decisions, last)

  acquire-ledger_step :
      (limits : RateLimits R) (ledger : List R.Float) (now : R.Float)
      → acquire R (limiter_of limits ledger) now ≡ (
        decision_of ((ledger_step limits ledger now).0, length (ledger_step limits ledger now).1),
        limiter_of limits (ledger_step limits ledger now).1,
      )
  unfolding acquire pace permit ledger_step decision_of limiter_of newest
  acquire-ledger_step limits [] now = elim (Bool-cases (leb limits.max_requests 0)) [
    | inl full ↦ rw full refl
    | inr room ↦ rw room refl
  ]
  acquire-ledger_step limits (last ∷ older) now =
      elim (Bool-cases (leb limits.max_requests (length (last ∷ older)))) [
        | inl full ↦ rw full refl
        | inr room ↦ elim (Bool-cases (R.float_lt (R.float_sub now last) (interval R limits))) [
          | inl early ↦ rw (room, early) refl
          | inr late ↦
              let one_more : length (last ∷ older) + 1 ≡ length (now ∷ last ∷ older) =
                omega arith in
              rw (room, late, one_more) refl
        ]
      ]

  -- A limiter that holds the number and the newest entry of a ledger of permitted times answers
  -- any sequence of requests as the ledger does, with the same decisions, and ends as the limiter
  -- of the ledger's end; the ledger refuses once it is as long as the budget, asks for the
  -- missing pause where the newest entry is closer than the interval, and otherwise enters the
  -- time.
  pub acquire_all-ledger_run :
      (limits : RateLimits R) (ledger times : List R.Float)
      → acquire_all (limiter_of limits ledger) times ≡ (
        decisions_of (ledger_run limits ledger times).0,
        limiter_of limits (ledger_run limits ledger times).1,
      )
  unfolding acquire_all ledger_run decisions_of
  acquire_all-ledger_run limits ledger [] = refl
  acquire_all-ledger_run limits ledger (now ∷ times) =
      let first = acquire-ledger_step limits ledger now in
      let rest = acquire_all-ledger_run limits (ledger_step limits ledger now).1 times in
      rw (first, rest) refl
