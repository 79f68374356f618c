-- ===== src/SinkQueue/Accounting.antt =====
-- SCALE.md's identity, accepted - (processed + dropped + queued + in flight), over the critical sections.
use riemann_go.Base.{
  ℕ, ◌≡◌, refl, Bool, true, false, ◌==◌, arith, length, String, Bool-cases, inl, inr,
}
use riemann_go.SinkQueue.{
  SinkQueue, new_sink_queue, offer, reject, take_batch, settle, close, stats, residual,
}
use riemann_go.SinkQueue.Contents.{batch_size-le}

abbrev pub IsBalanced {ℓ} : {A : Type ℓ} → SinkQueue A → Type 0
IsBalanced q = residual (stats q) ≡ 0

pub new-IsBalanced {ℓ} :
    (A : Type ℓ) (name : String) (size : ℕ) → IsBalanced (new_sink_queue {A = A} name size)
unfolding new_sink_queue stats residual
new-IsBalanced A name size = refl

module _ {ℓ} {A : Type ℓ} where
  pub offer-IsBalanced : (f : A) (q : SinkQueue A) → IsBalanced q → IsBalanced (offer f q)
  unfolding offer stats residual
  offer-IsBalanced f q h = elim (Bool-cases (q.n == length q.buf)) [
    | inl full ↦ rw full (omega arith)
    | inr room ↦ rw room (omega arith)
  ]

  pub reject-IsBalanced : (q : SinkQueue A) → IsBalanced q → IsBalanced (reject q)
  unfolding reject stats residual
  reject-IsBalanced q h = omega arith

  pub take_batch-IsBalanced :
      (max_batch : ℕ) (q : SinkQueue A) → IsBalanced q → IsBalanced (take_batch max_batch q).1
  unfolding take_batch stats residual
  take_batch-IsBalanced max_batch q h = omega (arith, batch_size-le max_batch q)

  pub settle-IsBalanced :
      (k : ℕ) (b : Bool) (q : SinkQueue A) → IsBalanced q → IsBalanced (settle k b q)
  unfolding settle stats residual
  settle-IsBalanced k true q h = omega arith
  settle-IsBalanced k false q h = omega arith

  pub close-IsBalanced : (q : SinkQueue A) → IsBalanced q → IsBalanced (close q)
  unfolding close stats residual
  close-IsBalanced q h = h
