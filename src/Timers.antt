-- ===== src/Timers.antt =====
-- internal/engine/timers.go: the schedule of a loop, a heap of timers by due time and then by the
-- order of scheduling. What a timer runs is any type `C`; `zero` is the zero timer.
pub mod Order
pub mod Firing
use riemann_go.Base.{
  ℕ, zero, suc, ◌+◌, ◌%◌, Bool, true, false, not, Option, none, some, List, [], ◌∷◌, ltb,
  if◌then◌else◌, length, get_or, add64,
}
use riemann_go.Base.Float.{Float}
use riemann_go.Heap

pub record Timer (F C : Type 0) : Type 0 where
  pub due : F
  pub seq : ℕ
  pub fn : C

pub record Timers (F C : Type 0) : Type 0 where
  pub h : List (Timer F C)
  pub seq : ℕ

module _ {F C : Type 0} ⦃fl : Float F⦄ where
  -- timerHeap.Less
  unfoldable pub less : Timer F C → Timer F C → Bool
  less a b = if not (fl.feq a.due b.due) then fl.flt a.due b.due else ltb a.seq b.seq

  unfoldable pub schedule : Timer F C → F → C → Timers F C → Timers F C
  schedule zero_timer due fn t =
      let s = add64 t.seq 1 in
      record { h = Heap.push less zero_timer (record { due = due; seq = s; fn = fn }) t.h; seq = s }

  unfoldable pub next : Timers F C → Option F
  next t = elim t.h [ [] ↦ none | first ∷ _ ↦ some first.due ]

  unfoldable pub due_first : F → List (Timer F C) → Bool
  due_first now [] = false
  due_first now (first ∷ _) = fl.fle first.due now

  -- The test and the Pop of one round of fireDue.
  unfoldable pub pop_due : Timer F C → F → Timers F C → Option (Timer F C × Timers F C)
  unfolding due_first
  pop_due zero_timer now t =
      let popped = Heap.pop less zero_timer t.h in
      if due_first now t.h then some (popped.0, record t { h = popped.1 }) else none

  -- fireDue, over any state that holds the schedule: `call` runs a timer's function, which may
  -- schedule again.
  unfoldable pub fire_due :
      {W : Type 0}
      → Timer F C
      → (W → Timers F C)
      → (Timers F C → W → W)
      → (C → W → W)
      → ℕ
      → F
      → W
      → W
  unfolding pop_due
  fire_due zero_timer timers put call zero now w = w
  fire_due zero_timer timers put call (suc fuel) now w = elim (pop_due zero_timer now (timers w)) [
    | none ↦ w
    | some (tm, rest) ↦ fire_due zero_timer timers put call fuel now (call tm.fn (put rest w))
  ]
