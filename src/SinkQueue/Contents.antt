-- ===== src/SinkQueue/Contents.antt =====
-- The circular buffer of a queue as a list.
use riemann_go.Base.{
  ℕ, zero, suc, ◌+◌, ◌-◌, ◌%◌, ◌≤◌, ◌<◌, ◌≡◌, refl, ◌∙◌, sym, Bool, true, false, Option, none, some,
  List, [], ◌∷◌, ◌++◌, arith, ◌==◌, if◌then◌else◌, length, get_or, set, length-set,
  length-replicate, Bool-cases, inl, inr, String,
}
use riemann_go.Base.Circular.{
  wrap-lt, window, length-window, window-add, window-push, first-slot, window-clear,
}
use riemann_go.SinkQueue.{SinkQueue, new_sink_queue, offer, drain, batch_size, take_batch, settle}

-- The head lies in the buffer, and no more is queued than fits.
pub record IsValid {ℓ} {A : Type ℓ} (q : SinkQueue A) : Type 0 where
  pub head_in : q.head < length q.buf
  pub fits : q.n ≤ length q.buf

module _ {ℓ} {A : Type ℓ} where
  abbrev pub capacity : SinkQueue A → ℕ
  capacity q = length q.buf

  -- The queued firings, oldest first.
  unfoldable pub contents : SinkQueue A → List (Option A)
  contents q = window none (length q.buf) q.buf q.head 0 q.n

  pub length-contents : (q : SinkQueue A) → length (contents q) ≡ q.n
  unfolding contents
  length-contents q = length-window none (length q.buf) q.buf q.head 0 q.n

  pub new-IsValid :
      (name : String) (size : ℕ) → 0 < size → IsValid (new_sink_queue {A = A} name size)
  unfolding new_sink_queue
  new-IsValid name size h = record {
    head_in = omega (arith, length-replicate {A = Option A} size none);
    fits = omega arith;
  }

  pub offer-IsValid : (f : A) (q : SinkQueue A) → IsValid q → IsValid (offer f q)
  unfolding offer
  offer-IsValid f q v = elim (Bool-cases (q.n == length q.buf)) [
    | inl full ↦ rw full (record { head_in = v.head_in; fits = v.fits })
    | inr room ↦ rw room (
        let e = length-set q.buf ((q.head + q.n) % length q.buf) (some f) in
        record { head_in = omega arith; fits = ground arith })
  ]

  -- A firing offered to a queue with room goes to the end; a full queue sheds it and keeps what it
  -- holds.
  pub contents-offer :
      (f : A) (q : SinkQueue A)
      → IsValid q
      → contents (offer f q) ≡ (if q.n == capacity q then contents q else contents q ++ some f ∷ [])
  unfolding offer contents
  contents-offer f q v = elim (Bool-cases (q.n == length q.buf)) [
    | inl full ↦ rw full
    | inr room ↦ rw room (
        rw length-set
          (window-push none (length q.buf) q.buf q.head q.n (some f) refl v.head_in (ground arith)))
  ]

  -- What `drain` returns and leaves, for `k` slots of a buffer of `size` slots.
  record IsDrained (size k : ℕ) (buf : List (Option A)) (head : ℕ) : Type ℓ where
    taken : (drain k buf head).0 ≡ window none size buf head 0 k
    kept :
        (m : ℕ)
        → k + m ≤ size
        → window none size (drain k buf head).1 (drain k buf head).2 0 m
          ≡ window none size buf head k m
    same_size : length (drain k buf head).1 ≡ size
    head_in : (drain k buf head).2 < size

  drain-zero : (head : ℕ) (buf : List (Option A)) → drain 0 buf head ≡ ([], buf, head)
  unfolding drain
  drain-zero head buf = refl

  drain-suc :
      (size k head : ℕ) (buf : List (Option A))
      → length buf ≡ size
      → drain (suc k) buf head ≡ (
        get_or buf head none ∷ (drain k (set buf head none) ((head + 1) % size)).0,
        (drain k (set buf head none) ((head + 1) % size)).1,
        (drain k (set buf head none) ((head + 1) % size)).2,
      )
  unfolding drain
  drain-suc size k head buf hl = rw (← hl)

  drain-IsDrained :
      (size k head : ℕ) (buf : List (Option A))
      → length buf ≡ size
      → head < size
      → k ≤ size
      → IsDrained size k buf head
  drain-IsDrained size zero head buf hl hh hk = record {
    taken = rw drain-zero;
    kept = λ m hm. rw drain-zero;
    same_size = rw drain-zero hl;
    head_in = rw drain-zero hh;
  }
  drain-IsDrained size (suc k) head buf hl hh hk =
      let same : length (set buf head none) ≡ size = length-set buf head none ∙ hl in
      let unfolded = drain-suc size k head buf hl in
      let ih =
        drain-IsDrained size k ((head + 1) % size) (set buf head none) same
          (wrap-lt size head 1 hh (omega arith)) (omega arith) in
      record {
        taken = rw unfolded (
            cc (
              ih.taken,
              first-slot none size head buf hh,
              window-clear none size head 0 k buf hl hh (omega arith),
            ));
        kept = λ m hm.
            rw unfolded
              (ih.kept m (omega arith) ∙ window-clear none size head k m buf hl hh (omega arith));
        same_size = rw unfolded ih.same_size;
        head_in = rw unfolded ih.head_in;
      }

  pub batch_size-le : (max_batch : ℕ) (q : SinkQueue A) → batch_size max_batch q ≤ q.n
  unfolding batch_size
  batch_size-le max_batch q = ground arith

  module _ (max_batch : ℕ) (q : SinkQueue A) (v : IsValid q) where
    taken : IsDrained (length q.buf) (batch_size max_batch q) q.buf q.head
    taken =
        drain-IsDrained (length q.buf) (batch_size max_batch q) q.head q.buf refl v.head_in
          (omega (arith, batch_size-le max_batch q, v.fits))

    pub take_batch-IsValid : IsValid (take_batch max_batch q).1
    unfolding take_batch
    take_batch-IsValid = record {
      head_in = rw taken.same_size taken.head_in;
      fits = rw taken.same_size (omega (arith, v.fits));
    }

    -- A round of Run takes the oldest firings, at most `max_batch` of them, and leaves the others
    -- in their order: the batch and what stays queued are together what was queued.
    pub take_batch_lem :
        ((take_batch max_batch q).0 ++ contents (take_batch max_batch q).1 ≡ contents q)
        × (length (take_batch max_batch q).0 ≡ batch_size max_batch q)
    unfolding take_batch contents
    take_batch_lem =
        let k = batch_size max_batch q in
        let size = length q.buf in
        let le : k ≤ q.n = batch_size-le max_batch q in
        let split : k + (q.n - k) ≡ q.n = omega arith in
        let z : 0 + k ≡ k = omega arith in
        let add = window-add none size q.buf q.head 0 k (q.n - k) in
        (
          rw (taken.same_size, taken.taken, taken.kept (q.n - k) (omega (arith, v.fits)))
              (sym (rw (split, z) at add)),
          rw taken.taken (length-window none size q.buf q.head 0 k),
        )

  pub settle-IsValid : (k : ℕ) (b : Bool) (q : SinkQueue A) → IsValid q → IsValid (settle k b q)
  unfolding settle
  settle-IsValid k true q v = record { head_in = v.head_in; fits = v.fits }
  settle-IsValid k false q v = record { head_in = v.head_in; fits = v.fits }

  pub contents-settle : (k : ℕ) (b : Bool) (q : SinkQueue A) → contents (settle k b q) ≡ contents q
  unfolding settle contents
  contents-settle k true q = refl
  contents-settle k false q = refl
