-- ===== src/SinkQueue/Worker.antt =====
-- The queue between many offering goroutines and the one goroutine in Run: every interleaving of
-- their critical sections.
use riemann_go.Base.{
  ℕ, ◌%◌, ◌<◌, ◌≡◌, ◌≢◌, refl, ap, sym, ◌∙◌, Bool, true, false, Option, none, some, List, [], ◌∷◌,
  ◌++◌, append_assoc, arith, ◌==◌, if◌then◌else◌, length, String, Bool-cases, inl, inr, sub64, word,
}
use riemann_go.SinkQueue.{SinkQueue, new_sink_queue, offer, reject, take_batch, settle, close}
use riemann_go.SinkQueue.Contents.{
  IsValid, capacity, contents, new-IsValid, offer-IsValid, contents-offer, take_batch-IsValid,
  take_batch_lem, settle-IsValid, contents-settle,
}
use riemann_go.SinkQueue.Accounting.{
  IsBalanced, new-IsBalanced, offer-IsBalanced, reject-IsBalanced, take_batch-IsBalanced,
  settle-IsBalanced, close-IsBalanced,
}

-- `pending` is the batch that the worker holds between its two critical sections. The histories
-- `admitted` and `handed` are not in the program: the firings that offer did not shed, and those
-- that deliver was called with, in order.
pub record System {ℓ} (A : Type ℓ) : Type ℓ where
  pub queue : SinkQueue A
  pub pending : Option (List (Option A))
  pub admitted : List (Option A)
  pub handed : List (Option A)

module _ {ℓ} {A : Type ℓ} where
  pub data Step (max_batch : ℕ) (s t : System A) : Type ℓ where
    offers :
        (f : A)
        → t ≡ record s {
          queue = offer f s.queue;
          admitted =
              if s.queue.n == capacity s.queue then s.admitted else s.admitted ++ some f ∷ [];
        }
        → Step max_batch s t
    rejects : t ≡ record s { queue = reject s.queue } → Step max_batch s t
    takes :
        s.pending ≡ none
        → s.queue.n ≢ 0
        → t ≡ record s {
          queue = (take_batch max_batch s.queue).1;
          pending = some (take_batch max_batch s.queue).0;
          handed = s.handed ++ (take_batch max_batch s.queue).0;
        }
        → Step max_batch s t
    settles :
        (batch : List (Option A)) (delivered : Bool)
        → s.pending ≡ some batch
        → t ≡ record s { queue = settle (length batch) delivered s.queue; pending = none }
        → Step max_batch s t
    closes : t ≡ record s { queue = close s.queue } → Step max_batch s t

  pub data Reach (max_batch : ℕ) (s : System A) : System A → Type ℓ where
    here : Reach max_batch s s
    next : {t u : System A} → Reach max_batch s t → Step max_batch t u → Reach max_batch s u

  abbrev pub start : String → ℕ → System A
  start name size = record {
    queue = new_sink_queue name size;
    pending = none;
    admitted = [];
    handed = [];
  }

  abbrev pub pending_count : Option (List (Option A)) → ℕ
  pending_count none = 0
  pending_count (some batch) = length batch

  pub record IsSound (s : System A) : Type ℓ where
    pub valid : IsValid s.queue
    pub balanced : IsBalanced s.queue
    pub in_flight : s.queue.in_flight ≡ pending_count s.pending % word
    pub in_order : s.admitted ≡ s.handed ++ contents s.queue

  pub start-IsSound : (name : String) (size : ℕ) → 0 < size → IsSound (start name size)
  unfolding new_sink_queue contents
  start-IsSound name size h = record {
    valid = new-IsValid name size h;
    balanced = new-IsBalanced A name size;
    in_flight = omega arith;
    in_order = refl;
  }

  in_flight-offer : (f : A) (q : SinkQueue A) → (offer f q).in_flight ≡ q.in_flight
  unfolding offer
  in_flight-offer f q = elim (Bool-cases (q.n == length q.buf)) [
    | inl full ↦ rw full
    | inr room ↦ rw room
  ]

  in_flight-settle :
      (k : ℕ) (b : Bool) (q : SinkQueue A) → (settle k b q).in_flight ≡ sub64 q.in_flight k
  unfolding settle
  in_flight-settle k true q = refl
  in_flight-settle k false q = refl

  Step-IsSound : (max_batch : ℕ) (s t : System A) → Step max_batch s t → IsSound s → IsSound t
  Step-IsSound max_batch s t (offers f e) h = rw e (record {
    valid = offer-IsValid f s.queue h.valid;
    balanced = offer-IsBalanced f s.queue h.balanced;
    in_flight = in_flight-offer f s.queue ∙ h.in_flight;
    in_order = elim (Bool-cases (s.queue.n == capacity s.queue)) [
      | inl full ↦ rw (contents-offer f s.queue h.valid, full) h.in_order
      | inr room ↦
          rw (contents-offer f s.queue h.valid, room, h.in_order)
            (append_assoc s.handed (contents s.queue) (some f ∷ []))
    ];
  })
  Step-IsSound max_batch s t (rejects e) h = rw e (
      unfold reject contents in
      record {
        valid = record { head_in = h.valid.head_in; fits = h.valid.fits };
        balanced = reject-IsBalanced s.queue h.balanced;
        in_flight = h.in_flight;
        in_order = h.in_order;
      })
  Step-IsSound max_batch s t (takes idle some_queued e) h =
      let taken = take_batch_lem max_batch s.queue h.valid in
      rw e (record {
        valid = take_batch-IsValid max_batch s.queue h.valid;
        balanced = take_batch-IsBalanced max_batch s.queue h.balanced;
        in_flight = unfold take_batch in omega (arith, h.in_flight, ap pending_count idle, taken.1);
        in_order =
            h.in_order ∙ ap (λ l. s.handed ++ l) (sym taken.0) ∙ sym (append_assoc s.handed _ _);
      })
  Step-IsSound max_batch s t (settles batch b p e) h = rw e (record {
    valid = settle-IsValid (length batch) b s.queue h.valid;
    balanced = settle-IsBalanced (length batch) b s.queue h.balanced;
    in_flight =
        omega (arith, in_flight-settle (length batch) b s.queue, h.in_flight, ap pending_count p);
    in_order = rw contents-settle h.in_order;
  })
  Step-IsSound max_batch s t (closes e) h = rw e (
      unfold close contents in
      record {
        valid = record { head_in = h.valid.head_in; fits = h.valid.fits };
        balanced = close-IsBalanced s.queue h.balanced;
        in_flight = h.in_flight;
        in_order = h.in_order;
      })

  -- In every interleaving of offering goroutines with the worker: the accounting identity holds, what
  -- is in flight is the batch that the worker holds, and the firings handed to the sink, followed by
  -- those still queued, are exactly the admitted ones in the order of their admission.
  pub Reach-IsSound : (max_batch : ℕ) (s t : System A) → Reach max_batch s t → IsSound s → IsSound t
  Reach-IsSound max_batch s t here h = h
  Reach-IsSound max_batch s t (next {t = r} reached st) h =
      Step-IsSound max_batch r t st (Reach-IsSound max_batch s r reached h)
