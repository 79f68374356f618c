-- ===== src/Tests/QueueTests.antt =====
-- The theorems on the sink queue, at concrete queues.
use riemann_go.Base.{ℕ, ◌≡◌, refl, Bool, false, Option, some, List, [], ◌∷◌, All, arith}
use riemann_go.SinkQueue.{SinkQueue, new_sink_queue, offer, take_batch, run}
use riemann_go.SinkQueue.Contents.{contents, new-IsValid, offer-IsValid}
use riemann_go.SinkQueue.Worker
use riemann_go.SinkQueue.Worker.{System, Reach, IsSound, start, start-IsSound, Reach-IsSound}
use riemann_go.SinkQueue.Run.{joined, IsBatch, run-delivers}

abbrev first : System ℕ
first = start "ntfy" 1

abbrev offered : System ℕ
offered = record first { queue = offer 7 first.queue; admitted = some 7 ∷ [] }

-- A full queue sheds the second firing.
abbrev shed : System ℕ
shed = record offered { queue = offer 8 offered.queue; admitted = some 7 ∷ [] }

abbrev taken : System ℕ
taken = record shed {
  queue = (take_batch 4 shed.queue).1;
  pending = some (take_batch 4 shed.queue).0;
  handed = (take_batch 4 shed.queue).0;
}

reached : Reach 4 first taken
unfolding offer new_sink_queue
reached =
    Worker.next
      (Worker.next (Worker.next Worker.here (Worker.offers 7 refl)) (Worker.offers 8 refl))
      (Worker.takes refl (λ h. ground (arith, h)) refl)

Reach-IsSound_example : IsSound taken
Reach-IsSound_example = Reach-IsSound 4 first taken reached (start-IsSound "ntfy" 1 (omega arith))

abbrev two : SinkQueue ℕ
two = offer 8 (offer 7 (new_sink_queue "ntfy" 2))

abbrev refuses : List (Option ℕ) → Bool
refuses batch = false

n-two : two.n ≡ 2
unfolding offer new_sink_queue
n-two = refl

run-delivers_example :
    (joined (run 3 1 refuses two).0 ≡ contents two)
    × All (IsBatch 1 refuses) (run 3 1 refuses two).0
    × ((run 3 1 refuses two).1.n ≡ 0)
run-delivers_example =
    run-delivers 1 refuses 3 two
      (offer-IsValid 8 _ (offer-IsValid 7 _ (new-IsValid "ntfy" 2 (omega arith))))
      (omega (arith, n-two))
