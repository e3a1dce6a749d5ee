-- ===== src/Gateway/Slots/Progress.antt =====
-- Schedules with the kill switch off that bring the threads through.
use nighwatch.Common.{
  ℕ, zero, suc, ◌+◌, ◌≤◌, ◌<◌, Bool, false, some, List, [], ◌∷◌, ◌≡◌, ◌⊎◌, inl, inr, refl, arith,
  length, map, ltb, Bool-cases, All, subst, ap, ◌∙◌,
}
use nighwatch.Gateway.Slots.{
  Phase, outside, acquiring, holding, left, refused, Slots, Moved, stays, raises, goes, move,
  behind, move_at, run_schedule, start,
}
use nighwatch.Gateway.Slots.Laws.{
  holders, work, MovesTo, IsBalanced, move_at-MovesTo, run_schedule-IsBalanced, start-IsBalanced,
  start_bound,
}

-- Some thread can move while the switch is off.
abbrev CanMove : ℕ → ℕ → List Phase → Type 0
CanMove bound permits threads =
    (i : ℕ) × (n : ℕ) × (ps : List Phase) × (move_at bound permits false threads i ≡ goes n ps)

CanMove-cons :
    (bound permits : ℕ) (p : Phase) (threads : List Phase)
    → CanMove bound permits threads
    → CanMove bound permits (p ∷ threads)
CanMove-cons bound permits p threads (i, n, ps, e) =
    (suc i, n, p ∷ ps, unfold move_at in ground (arith, e))

release-CanMove :
    (bound permits : ℕ) (threads : List Phase)
    → permits < bound
    → 1 ≤ holders threads
    → CanMove bound permits threads
release-CanMove bound permits [] low h = absurd (omega (arith, h))
release-CanMove bound permits (holding ∷ threads) low h =
    (0, suc permits, left ∷ threads, unfold move_at move in ground (arith, low))
release-CanMove bound permits (outside ∷ threads) low h =
    CanMove-cons bound permits outside threads (release-CanMove bound permits threads low h)
release-CanMove bound permits (acquiring ∷ threads) low h =
    CanMove-cons bound permits acquiring threads (release-CanMove bound permits threads low h)
release-CanMove bound permits (left ∷ threads) low h =
    CanMove-cons bound permits left threads (release-CanMove bound permits threads low h)
release-CanMove bound permits (refused ∷ threads) low h =
    CanMove-cons bound permits refused threads (release-CanMove bound permits threads low h)

acquire-CanMove :
    (bound permits : ℕ) (threads : List Phase)
    → 1 ≤ permits
    → holders threads ≡ 0
    → 1 ≤ work threads
    → CanMove bound permits threads
acquire-CanMove bound permits [] some_permit h w = absurd (omega (arith, w))
acquire-CanMove bound permits (holding ∷ threads) some_permit h w = absurd (omega (arith, h))
acquire-CanMove bound permits (outside ∷ threads) some_permit h w =
    (0, permits, acquiring ∷ threads, unfold move_at move in refl)
acquire-CanMove bound zero (acquiring ∷ threads) some_permit h w =
    absurd (omega (arith, some_permit))
acquire-CanMove bound (suc permits) (acquiring ∷ threads) some_permit h w =
    (0, permits, holding ∷ threads, unfold move_at move in refl)
acquire-CanMove bound permits (left ∷ threads) some_permit h w =
    CanMove-cons bound permits left threads (acquire-CanMove bound permits threads some_permit h w)
acquire-CanMove bound permits (refused ∷ threads) some_permit h w =
    CanMove-cons bound permits refused threads
      (acquire-CanMove bound permits threads some_permit h w)

zero_or_more : (n : ℕ) → (n ≡ 0) ⊎ (1 ≤ n)
zero_or_more zero = inl refl
zero_or_more (suc n) = inr (omega arith)

IsBalanced-CanMove :
    (s : Slots)
    → IsBalanced s
    → 1 ≤ s.bound
    → 1 ≤ work s.threads
    → CanMove s.bound s.permits s.threads
IsBalanced-CanMove s h some_slot w = elim (zero_or_more (holders s.threads)) [
  | inl nobody ↦
      acquire-CanMove s.bound s.permits s.threads (omega (arith, h, nobody, some_slot)) nobody w
  | inr somebody ↦ release-CanMove s.bound s.permits s.threads (omega (arith, h, somebody)) somebody
]

-- A thread in the end, if the kill switch stays off: it has had a slot, unless it had been refused.
abbrev pub final : Phase → Phase
final refused = refused
final outside = left
final acquiring = left
final holding = left
final left = left

work-final : (threads : List Phase) → work threads ≡ 0 → threads ≡ map final threads
work-final [] h = refl
work-final (outside ∷ threads) h = absurd (omega (arith, h))
work-final (acquiring ∷ threads) h = absurd (omega (arith, h))
work-final (holding ∷ threads) h = absurd (omega (arith, h))
work-final (left ∷ threads) h = ap (λ ps. left ∷ ps) (work-final threads h)
work-final (refused ∷ threads) h = ap (λ ps. refused ∷ ps) (work-final threads h)

-- A move with the switch off refuses no thread.
abbrev KeepsFinal : List Phase → Moved → Type 0
KeepsFinal threads stays = Unit
KeepsFinal threads raises = Unit
KeepsFinal threads (goes n ps) = map final ps ≡ map final threads

move-KeepsFinal :
    (bound permits : ℕ) (p : Phase) (threads : List Phase)
    → KeepsFinal (p ∷ threads) (move bound permits false p threads)
unfolding move
move-KeepsFinal bound permits outside threads = refl
move-KeepsFinal bound zero acquiring threads = tt
move-KeepsFinal bound (suc permits) acquiring threads = refl
move-KeepsFinal bound permits holding threads = elim (Bool-cases (ltb permits bound)) [
  | inl low ↦ rw low refl
  | inr full ↦ rw full tt
]
move-KeepsFinal bound permits left threads = tt
move-KeepsFinal bound permits refused threads = tt

behind-KeepsFinal :
    (p : Phase) (threads : List Phase) (m : Moved)
    → KeepsFinal threads m
    → KeepsFinal (p ∷ threads) (behind p m)
behind-KeepsFinal p threads stays h = tt
behind-KeepsFinal p threads raises h = tt
behind-KeepsFinal p threads (goes n ps) h = ap (λ qs. final p ∷ qs) h

move_at-KeepsFinal :
    (bound permits : ℕ) (threads : List Phase) (i : ℕ)
    → KeepsFinal threads (move_at bound permits false threads i)
unfolding move_at
move_at-KeepsFinal bound permits [] i = tt
move_at-KeepsFinal bound permits (p ∷ threads) zero = move-KeepsFinal bound permits p threads
move_at-KeepsFinal bound permits (p ∷ threads) (suc i) =
    behind-KeepsFinal p threads (move_at bound permits false threads i)
      (move_at-KeepsFinal bound permits threads i)

-- A move of a schedule at which the kill switch is off.
abbrev pub IsCalm : ℕ × Bool → Type 0
IsCalm m = m.1 ≡ false

-- A schedule with the switch off, after which every thread has had a slot that had not been refused.
abbrev pub Drains : Slots → Type 0
Drains s =
    (schedule : List (ℕ × Bool)) × All IsCalm schedule
    × ((s' : Slots) × (run_schedule s schedule ≡ some s')
        × (s'.threads ≡ map final s.threads)
        × (length schedule ≤ work s.threads))

Drains-nothing : (s : Slots) → work s.threads ≡ 0 → Drains s
unfolding run_schedule
Drains-nothing s h = ([], tt, (s, refl, work-final s.threads h, omega arith))

Drains-cons :
    (s : Slots) (i n : ℕ) (ps : List Phase)
    → move_at s.bound s.permits false s.threads i ≡ goes n ps
    → work ps < work s.threads
    → Drains (record { permits = n; bound = s.bound; threads = ps })
    → Drains s
unfolding run_schedule
Drains-cons s i n ps e less (schedule, calm, (s', e', gone, short)) =
    let kept : map final ps ≡ map final s.threads =
      subst (KeepsFinal s.threads) e (move_at-KeepsFinal s.bound s.permits s.threads i) in
    (
      (i, false) ∷ schedule,
      (refl, calm),
      (s', ground (arith, e, e'), gone ∙ kept, omega (arith, short, less)),
    )

balanced-Drains :
    (fuel : ℕ) (s : Slots) → work s.threads ≤ fuel → IsBalanced s → 1 ≤ s.bound → Drains s
balanced-Drains zero s enough h some_slot = Drains-nothing s (omega (arith, enough))
balanced-Drains (suc fuel) s enough h some_slot = elim (zero_or_more (work s.threads)) [
  | inl nothing ↦ Drains-nothing s nothing
  | inr something ↦
      let (i, n, ps, e) = IsBalanced-CanMove s h some_slot something in
      let moves = move_at-MovesTo s.bound s.permits false s.threads i in
      let (same, less) : (n + holders ps ≡ s.permits + holders s.threads)
          × (work ps < work s.threads) =
        subst (λ m. MovesTo s.bound s.permits s.threads m) e moves in
      Drains-cons s i n ps e less (
        balanced-Drains fuel (record { permits = n; bound = s.bound; threads = ps })
          (omega (arith, enough, less)) (omega (arith, h, same)) some_slot)
]

-- If at least one slot exists, then from every state that threads have reached, some schedule at
-- all of whose moves the kill switch is off, no longer than the moves that the threads have left,
-- brings every thread that the switch had not refused before through the body and its release.
pub run_schedule-Drains :
    (max_concurrent threads : ℕ) (schedule : List (ℕ × Bool)) (s : Slots)
    → 1 ≤ max_concurrent
    → run_schedule (start max_concurrent threads) schedule ≡ some s
    → Drains s
run_schedule-Drains max_concurrent threads schedule s some_slot e =
    let (s', e', h, same, less) =
      run_schedule-IsBalanced (start max_concurrent threads) schedule
        (start-IsBalanced max_concurrent threads) in
    let same_state : s' ≡ s = ground (arith, e, e') in
    let drained : Drains s' =
      balanced-Drains (work s'.threads) s' (omega arith) h
        (omega (arith, same, start_bound max_concurrent threads, some_slot)) in
    subst Drains same_state drained
