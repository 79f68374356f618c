-- ===== src/Timers/Firing.antt =====
-- What a loop takes out of its schedule, and in which order.
use riemann_go.Base.{ℕ, ◌+◌, ◌<◌, ◌≤◌, ◌≡◌, refl, Bool, true, false, length, get_or, add64}
use riemann_go.Base.Float.{Float}
use riemann_go.Heap
use riemann_go.Heap.Items.{count, one_if, push-items}
use riemann_go.Heap.Queue.{Heaped, push-Heaped}
use riemann_go.Timers.{Timer, Timers, less, schedule}
use riemann_go.Timers.Order.{IsTimed, timer_order}

module _ {F C : Type 0} ⦃fl : Float F⦄ (zero_timer : Timer F C) where
  -- The schedule is a heap of timers with due times that are not NaN.
  abbrev pub IsSchedule : Timers F C → Type 0
  IsSchedule t = Heaped less zero_timer IsTimed timer_order t.h

  abbrev pub new_timer : F → C → Timers F C → Timer F C
  new_timer due fn t = record { due = due; seq = add64 t.seq 1; fn = fn }

  -- Scheduling keeps the schedule one, adds exactly the new timer, and gives it the next number.
  pub schedule-IsSchedule :
      (due : F) (fn : C) (t : Timers F C)
      → fl.is_nan due ≡ false
      → IsSchedule t
      → IsSchedule (schedule zero_timer due fn t)
        × ((p : Timer F C → Bool)
            → count p (schedule zero_timer due fn t).h
              ≡ count p t.h + one_if (p (new_timer due fn t)))
        × ((schedule zero_timer due fn t).seq ≡ add64 t.seq 1)
  unfolding schedule
  schedule-IsSchedule due fn t timed v = (
    push-Heaped less zero_timer IsTimed timer_order (new_timer due fn t) t.h v timed,
    (push-items less zero_timer (new_timer due fn t) t.h).1,
    refl,
  )

  -- A timer that fireDue takes.
  pub record IsFired (now : F) (t : Timers F C) (tm : Timer F C) (rest : Timers F C) : Type 0 where
    pub due : fl.fle tm.due now ≡ true
    -- no timer is due earlier, and none due at the same instant was scheduled before
    pub earliest : (i : ℕ) → i < length t.h → fl.flt (get_or t.h i zero_timer).due tm.due ≡ false
    pub first :
        (i : ℕ)
        → i < length t.h
        → fl.feq (get_or t.h i zero_timer).due tm.due ≡ true
        → tm.seq ≤ (get_or t.h i zero_timer).seq
    pub taken : (p : Timer F C → Bool) → count p t.h ≡ count p rest.h + one_if (p tm)
    pub kept : IsSchedule rest
    pub fewer : length rest.h + 1 ≡ length t.h

  popped : (t : Timers F C) → Timer F C × Timers F C
  popped t = ((Heap.pop less zero_timer t.h).0, record t { h = (Heap.pop less zero_timer t.h).1 })
