-- ===== src/SinkQueue/Run.antt =====
-- Run, left alone: what it delivers.
use riemann_go.Base.{
  ℕ, suc, zero, ◌-◌, ◌≤◌, ◌<◌, ◌≡◌, refl, ◌∙◌, Bool, true, false, Option, List, [], ◌∷◌, ◌++◌,
  arith, ◌==◌, length, ==_iff, Bool-cases, inl, inr, All,
}
use riemann_go.SinkQueue.{SinkQueue, batch_size, batch_limit, take_batch, settle, run}
use riemann_go.SinkQueue.Contents.{
  IsValid, contents, length-contents, take_batch-IsValid, take_batch_lem, settle-IsValid,
  contents-settle,
}

module _ {ℓ} {A : Type ℓ} where
  abbrev pub joined : List (List A) → List A
  joined [] = []
  joined (b ∷ bs) = b ++ joined bs

  nil_of_length : (l : List A) → length l ≡ 0 → [] ≡ l
  nil_of_length [] h = refl
  nil_of_length (x ∷ l) h = absurd (omega arith)

module _ {ℓ} {A : Type ℓ} (max_batch : ℕ) (deliver : List (Option A) → Bool) where
  -- A batch is not empty and holds at most `max_batch` firings, or one where that is 0.
  abbrev pub IsBatch : List (Option A) → Type 0
  IsBatch b = (0 < length b) × (length b ≤ batch_limit max_batch)

  abbrev pub after_round : SinkQueue A → SinkQueue A
  after_round q =
      settle (length (take_batch max_batch q).0) (deliver (take_batch max_batch q).0)
        (take_batch max_batch q).1

  batch_size-IsBatch :
      (q : SinkQueue A)
      → (q.n == 0) ≡ false
      → (0 < batch_size max_batch q) × (batch_size max_batch q ≤ batch_limit max_batch)
  unfolding batch_size
  batch_size-IsBatch q h = ground arith

  n-after_round : (q : SinkQueue A) → (after_round q).n ≡ q.n - batch_size max_batch q
  unfolding take_batch settle
  n-after_round q = elim (Bool-cases (deliver (take_batch max_batch q).0)) [
    | inl e ↦ rw e
    | inr e ↦ rw e
  ]

  run-done :
      (fuel : ℕ) (q : SinkQueue A)
      → (q.n == 0) ≡ true
      → run (suc fuel) max_batch deliver q ≡ ([], q)
  unfolding run
  run-done fuel q e = rw (e, run)

  run-round :
      (fuel : ℕ) (q : SinkQueue A)
      → (q.n == 0) ≡ false
      → run (suc fuel) max_batch deliver q ≡ (
        (take_batch max_batch q).0 ∷ (run fuel max_batch deliver (after_round q)).0,
        (run fuel max_batch deliver (after_round q)).1,
      )
  unfolding run
  run-round fuel q e = rw (e, run)

  -- With more fuel than firings queued, the worker left alone ends with an empty queue, whatever the
  -- sink answers: its batches, each of them neither empty nor longer than the limit, joined in their
  -- order are exactly what was queued.
  pub run-delivers :
      (fuel : ℕ) (q : SinkQueue A)
      → IsValid q
      → q.n < fuel
      → (joined (run fuel max_batch deliver q).0 ≡ contents q)
        × All IsBatch (run fuel max_batch deliver q).0
        × ((run fuel max_batch deliver q).1.n ≡ 0)
  run-delivers zero q v h = absurd (omega arith)
  run-delivers (suc fuel) q v h = elim (Bool-cases (q.n == 0)) [
    | inl e ↦
        rw (run-done fuel q e)
          (nil_of_length (contents q) (length-contents q ∙ (==_iff q.n 0).0 e), tt, ground arith)
    | inr e ↦
        let taken = take_batch_lem max_batch q v in
        let size = batch_size-IsBatch q e in
        let queued : 0 < q.n = ground arith in
        let ih =
          run-delivers fuel (after_round q)
            (settle-IsValid _ _ _ (take_batch-IsValid max_batch q v))
            (omega (arith, n-after_round q)) in
        rw (run-round fuel q e) (
          rw ih.0 (rw contents-settle taken.0),
          ((omega (arith, taken.1), omega (arith, taken.1)), ih.1),
          ih.2,
        )
  ]
