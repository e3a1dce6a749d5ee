-- ===== src/Gateway/Slots/Laws.antt =====
-- The semaphore's counter and the threads that hold a slot, and what each move keeps and uses up.
use nighwatch.Common.{
  ℕ, zero, suc, ◌+◌, ◌≤◌, ◌<◌, Bool, true, false, some, List, [], ◌∷◌, ◌≡◌, inl, inr, refl, arith,
  ltb, Bool-cases, ◌∙◌,
}
use nighwatch.Gateway.Slots.{
  Phase, outside, acquiring, holding, left, refused, Slots, Moved, stays, raises, goes, move,
  behind, move_at, after_move, run_schedule, all_outside, start,
}

-- The threads in the body of the `with`.
abbrev pub holders : List Phase → ℕ
holders [] = 0
holders (holding ∷ ps) = suc (holders ps)
holders (outside ∷ ps) = holders ps
holders (acquiring ∷ ps) = holders ps
holders (left ∷ ps) = holders ps
holders (refused ∷ ps) = holders ps

-- The moves that are left to the threads at most.
abbrev pub work : List Phase → ℕ
work [] = 0
work (outside ∷ ps) = 3 + work ps
work (acquiring ∷ ps) = 2 + work ps
work (holding ∷ ps) = 1 + work ps
work (left ∷ ps) = work ps
work (refused ∷ ps) = work ps

-- What a move keeps, and what it uses up.
abbrev pub MovesTo : ℕ → ℕ → List Phase → Moved → Type 0
MovesTo bound permits threads stays = Unit
MovesTo bound permits threads raises = (bound ≤ permits) × (1 ≤ holders threads)
MovesTo bound permits threads (goes permits' threads') =
    (permits' + holders threads' ≡ permits + holders threads) × (work threads' < work threads)

behind-MovesTo :
    (bound permits : ℕ) (p : Phase) (threads : List Phase) (m : Moved)
    → MovesTo bound permits threads m
    → MovesTo bound permits (p ∷ threads) (behind p m)
behind-MovesTo bound permits p threads stays h = tt
behind-MovesTo bound permits outside threads raises h = h
behind-MovesTo bound permits acquiring threads raises h = h
behind-MovesTo bound permits holding threads raises h = (h.0, omega arith)
behind-MovesTo bound permits left threads raises h = h
behind-MovesTo bound permits refused threads raises h = h
behind-MovesTo bound permits outside threads (goes n ps) h = (h.0, omega (arith, h.1))
behind-MovesTo bound permits acquiring threads (goes n ps) h = (h.0, omega (arith, h.1))
behind-MovesTo bound permits holding threads (goes n ps) h =
    (omega (arith, h.0), omega (arith, h.1))
behind-MovesTo bound permits left threads (goes n ps) h = h
behind-MovesTo bound permits refused threads (goes n ps) h = h

move-MovesTo :
    (bound permits : ℕ) (tripped : Bool) (p : Phase) (threads : List Phase)
    → MovesTo bound permits (p ∷ threads) (move bound permits tripped p threads)
unfolding move
move-MovesTo bound permits tripped outside threads = (refl, omega arith)
move-MovesTo bound zero true acquiring threads = (refl, omega arith)
move-MovesTo bound zero false acquiring threads = tt
move-MovesTo bound (suc permits) tripped acquiring threads = (omega arith, omega arith)
move-MovesTo bound permits tripped holding threads = elim (Bool-cases (ltb permits bound)) [
  | inl low ↦ rw low (omega arith, omega arith)
  | inr full ↦ rw full (ground (arith, full), omega arith)
]
move-MovesTo bound permits tripped left threads = tt
move-MovesTo bound permits tripped refused threads = tt

pub move_at-MovesTo :
    (bound permits : ℕ) (tripped : Bool) (threads : List Phase) (i : ℕ)
    → MovesTo bound permits threads (move_at bound permits tripped threads i)
unfolding move_at
move_at-MovesTo bound permits tripped [] i = tt
move_at-MovesTo bound permits tripped (p ∷ threads) zero =
    move-MovesTo bound permits tripped p threads
move_at-MovesTo bound permits tripped (p ∷ threads) (suc i) =
    behind-MovesTo bound permits p threads (move_at bound permits tripped threads i)
      (move_at-MovesTo bound permits tripped threads i)

-- The permits that are out are the threads that hold one.
abbrev pub IsBalanced : Slots → Type 0
IsBalanced s = s.permits + holders s.threads ≡ s.bound

after_move-IsBalanced :
    (s : Slots) (m : Moved)
    → IsBalanced s
    → MovesTo s.bound s.permits s.threads m
    → (s' : Slots) × (after_move s m ≡ some s')
      × IsBalanced s'
      × (s'.bound ≡ s.bound)
      × (work s'.threads ≤ work s.threads)
after_move-IsBalanced s stays h k = (s, refl, h, refl, omega arith)
after_move-IsBalanced s raises h k = absurd (omega (arith, h, k.0, k.1))
after_move-IsBalanced s (goes permits threads) h k =
    (_, refl, omega (arith, h, k.0), refl, omega (arith, k.1))

pub run_schedule-IsBalanced :
    (s : Slots) (schedule : List (ℕ × Bool))
    → IsBalanced s
    → (s' : Slots) × (run_schedule s schedule ≡ some s')
      × IsBalanced s'
      × (s'.bound ≡ s.bound)
      × (work s'.threads ≤ work s.threads)
run_schedule-IsBalanced s [] h = (s, unfold run_schedule in refl, h, refl, omega arith)
run_schedule-IsBalanced s ((i, tripped) ∷ schedule) h =
    let (s1, e, h1, same, less) =
      after_move-IsBalanced s (move_at s.bound s.permits tripped s.threads i) h
        (move_at-MovesTo s.bound s.permits tripped s.threads i) in
    let (s2, e2, h2, same2, less2) = run_schedule-IsBalanced s1 schedule h1 in
    let whole : run_schedule s ((i, tripped) ∷ schedule) ≡ run_schedule s1 schedule =
      unfold run_schedule in ground (arith, e) in
    (s2, whole ∙ e2, h2, same2 ∙ same, omega (arith, less, less2))

all_outside-holders : (n : ℕ) → holders (all_outside n) ≡ 0
unfolding all_outside
all_outside-holders zero = refl
all_outside-holders (suc n) = all_outside-holders n

pub start-IsBalanced : (max_concurrent threads : ℕ) → IsBalanced (start max_concurrent threads)
unfolding start
start-IsBalanced max_concurrent threads = omega (arith, all_outside-holders threads)

pub start_bound :
    (max_concurrent threads : ℕ) → (start max_concurrent threads).bound ≡ max_concurrent
unfolding start
start_bound max_concurrent threads = refl

-- Whatever any number of threads do in whatever order, and whenever the kill switch is on,
-- `release` never raises, and the permits that are left together with the threads that hold a
-- slot are `max_concurrent_requests`.
pub run_schedule-holders :
    (max_concurrent threads : ℕ) (schedule : List (ℕ × Bool))
    → (s : Slots) × (run_schedule (start max_concurrent threads) schedule ≡ some s)
      × (s.permits + holders s.threads ≡ max_concurrent)
run_schedule-holders max_concurrent threads schedule =
    let (s, e, h, same, less) =
      run_schedule-IsBalanced (start max_concurrent threads) schedule
        (start-IsBalanced max_concurrent threads) in
    (s, e, h ∙ same ∙ start_bound max_concurrent threads)
