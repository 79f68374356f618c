-- ===== src/Ring/Contents.antt =====
-- A ring as the list of its entries, oldest first.
use riemann_go.Base.{
  length-replicate, ℕ, zero, suc, ◌+◌, ◌-◌, ◌%◌, ◌≤◌, ◌<◌, ◌≡◌, ◌⊎◌, refl, ap, sym, ◌∙◌, true,
  false, ◌&&◌, ◌||◌, Option, none, some, List, [], ◌∷◌, ◌++◌, arith, ltb, leb, if◌then◌else◌,
  length, get_or, set, length-set, Bool-cases, inl, inr, ltb→lt,
}
use riemann_go.Base.Circular.{
  wrap-lt, window, length-window, window-push, window-clear, window-uncons,
}
use riemann_go.Event.{Event, size}
use riemann_go.Ring.{
  new_ring, Ring, RingEntry, size_of, is_full, drop_oldest, evict, store, add, snapshot,
  snapshot_from,
}

module _ {F : Type 0} where
  abbrev pub total : List (Option (RingEntry F)) → ℕ
  total [] = 0
  total (e ∷ es) = size_of e + total es

  pub total-append : (xs ys : List (Option (RingEntry F))) → total (xs ++ ys) ≡ total xs + total ys
  total-append [] ys = omega arith
  total-append (x ∷ xs) ys = omega (arith, total-append xs ys)

  snapshot_from-window :
      (r : Ring F) (i k : ℕ) → snapshot_from r i k ≡ window none r.max_events r.buf r.head i k
  unfolding snapshot_from
  snapshot_from-window r i zero = refl
  snapshot_from-window r i (suc k) =
      ap (λ l. get_or r.buf ((r.head + i) % r.max_events) none ∷ l)
        (snapshot_from-window r (suc i) k)

  pub snapshot-window : (r : Ring F) → snapshot r ≡ window none r.max_events r.buf r.head 0 r.n
  unfolding snapshot
  snapshot-window r = snapshot_from-window r 0 r.n

  pub record IsValid (r : Ring F) : Type 0 where
    pub storage : length r.buf ≡ r.max_events
    pub head_in : r.head < r.max_events
    pub fits : r.n ≤ r.max_events
    pub counted : r.bytes ≡ total (snapshot r)

  pub new_ring-IsValid : (events bytes : ℕ) → 0 < events → IsValid (new_ring {F = F} events bytes)
  unfolding new_ring snapshot
  new_ring-IsValid events bytes h = record {
    storage = length-replicate {A = Option (RingEntry F)} events none;
    head_in = h;
    fits = omega arith;
    counted = refl;
  }

  pub length-snapshot : (r : Ring F) → length (snapshot r) ≡ r.n
  length-snapshot r = rw snapshot-window (length-window none r.max_events r.buf r.head 0 r.n)

  -- The specification of the loop: drop from the front until an event of `s` bytes fits.
  unfoldable pub trim : ℕ → ℕ → ℕ → List (Option (RingEntry F)) → List (Option (RingEntry F))
  trim max_events max_bytes s [] = []
  trim max_events max_bytes s (x ∷ xs) =
      let rest = trim max_events max_bytes s xs in
      if leb max_events (length (x ∷ xs)) || ltb max_bytes (total (x ∷ xs) + s)
      then rest
      else x ∷ xs

  -- The fields of a ring after a round of the loop.
  module _ (r : Ring F) (v : IsValid r) (h : 0 < r.n) where
    pub snapshot-drop_oldest : snapshot r ≡ get_or r.buf r.head none ∷ snapshot (drop_oldest r)
    snapshot-drop_oldest =
        rw (snapshot-window, snapshot-window)
          (unfold drop_oldest in
            window-uncons none r.max_events r.buf r.head r.n h v.head_in
            ∙ ap (λ l. get_or r.buf r.head none ∷ l)
                (sym (
                  window-clear none r.max_events r.head 0 (r.n - 1) r.buf v.storage v.head_in
                    (omega (arith, v.fits)))))

    pub drop_oldest-IsValid : IsValid (drop_oldest r)
    drop_oldest-IsValid = record {
      storage = unfold drop_oldest in length-set r.buf r.head none ∙ v.storage;
      head_in =
          unfold drop_oldest in wrap-lt r.max_events r.head 1 v.head_in (omega (arith, v.head_in));
      fits = unfold drop_oldest in omega (arith, v.fits);
      counted = bytes-drop_oldest ∙ omega (arith, v.counted, ap total snapshot-drop_oldest);
    }
      where
        bytes-drop_oldest : (drop_oldest r).bytes ≡ r.bytes - size_of (get_or r.buf r.head none)
        bytes-drop_oldest = unfold drop_oldest in refl

  evict-suc :
      (fuel s : ℕ) (r : Ring F)
      → evict (suc fuel) s r
        ≡ (if ltb 0 r.n && is_full s r then evict fuel s (drop_oldest r) else r)
  unfolding evict
  evict-suc fuel s r = refl

  limits-drop_oldest :
      (r : Ring F)
      → ((drop_oldest r).n ≡ r.n - 1)
        × ((drop_oldest r).max_events ≡ r.max_events)
        × ((drop_oldest r).max_bytes ≡ r.max_bytes)
  unfolding drop_oldest
  limits-drop_oldest r = (refl, refl, refl)

  -- What the loop leaves: the trimmed list, and room for the event unless the ring is empty.
  pub record IsEvicted (s : ℕ) (r e : Ring F) : Type 0 where
    pub valid : IsValid e
    pub trimmed : snapshot e ≡ trim r.max_events r.max_bytes s (snapshot r)
    pub room : (e.n ≡ 0) ⊎ (is_full s e ≡ false)
    pub same_events : e.max_events ≡ r.max_events
    pub same_bytes : e.max_bytes ≡ r.max_bytes

  trim-stop :
      (r : Ring F) (s : ℕ)
      → IsValid r
      → is_full s r ≡ false
      → snapshot r ≡ trim r.max_events r.max_bytes s (snapshot r)
  trim-stop r s v h = go (snapshot r) (length-snapshot r) (sym v.counted)
    where
      go :
          (l : List (Option (RingEntry F)))
          → length l ≡ r.n
          → total l ≡ r.bytes
          → l ≡ trim r.max_events r.max_bytes s l
      go [] hl hb = unfold trim in refl
      go (x ∷ xs) hl hb = unfold trim in rw (hl, hb, h)

  trim-go :
      (r : Ring F) (s : ℕ) (x : Option (RingEntry F)) (xs : List (Option (RingEntry F)))
      → IsValid r
      → snapshot r ≡ x ∷ xs
      → is_full s r ≡ true
      → trim r.max_events r.max_bytes s (snapshot r) ≡ trim r.max_events r.max_bytes s xs
  trim-go r s x xs v e h =
      let hl : length (x ∷ xs) ≡ r.n = ap length (sym e) ∙ length-snapshot r in
      let hb : total (x ∷ xs) ≡ r.bytes = ap total (sym e) ∙ sym v.counted in
      rw e (unfold trim in rw (hl, hb, h))

  trim-empty : (a b s : ℕ) (l : List (Option (RingEntry F))) → length l ≡ 0 → l ≡ trim a b s l
  unfolding trim
  trim-empty a b s [] h = refl
  trim-empty a b s (x ∷ xs) h = absurd (omega arith)

  stopped :
      (s : ℕ) (r : Ring F)
      → IsValid r
      → snapshot r ≡ trim r.max_events r.max_bytes s (snapshot r)
      → (r.n ≡ 0) ⊎ (is_full s r ≡ false)
      → IsEvicted s r r
  stopped s r v e o = record {
    valid = v;
    trimmed = e;
    room = o;
    same_events = refl;
    same_bytes = refl;
  }

  emptied : (s : ℕ) (r : Ring F) → IsValid r → r.n ≡ 0 → IsEvicted s r r
  emptied s r v e =
      stopped s r v (trim-empty r.max_events r.max_bytes s (snapshot r) (length-snapshot r ∙ e))
        (inl e)

  went_on :
      (s : ℕ) (r e : Ring F)
      → IsValid r
      → 0 < r.n
      → is_full s r ≡ true
      → IsEvicted s (drop_oldest r) e
      → IsEvicted s r e
  unfolding drop_oldest
  went_on s r e v pos full ih = record {
    valid = ih.valid;
    trimmed =
        ih.trimmed
        ∙ sym (
            trim-go r s (get_or r.buf r.head none) (snapshot (drop_oldest r)) v
              (snapshot-drop_oldest r v pos) full);
    room = ih.room;
    same_events = ih.same_events;
    same_bytes = ih.same_bytes;
  }

  pub evict-IsEvicted :
      (fuel s : ℕ) (r : Ring F) → IsValid r → r.n ≤ fuel → IsEvicted s r (evict fuel s r)
  evict-IsEvicted zero s r v h = unfold evict in emptied s r v (omega arith)
  evict-IsEvicted (suc fuel) s r v h = elim (Bool-cases (ltb 0 r.n)) [
    | inr e ↦ rw (evict-suc, e) (emptied s r v (ground arith))
    | inl e ↦ elim (Bool-cases (is_full s r)) [
      | inr fits ↦ rw (evict-suc, e, fits) (stopped s r v (trim-stop r s v fits) (inr fits))
      | inl full ↦
          let pos : 0 < r.n = ltb→lt 0 r.n e in
          let less : (drop_oldest r).n ≤ fuel = omega (arith, (limits-drop_oldest r).0) in
          rw (evict-suc, e, full)
            (went_on s r _ v pos full
              (evict-IsEvicted fuel s (drop_oldest r) (drop_oldest-IsValid r v pos) less))
    ]
  ]

  module _ (e : RingEntry F) (r : Ring F) (v : IsValid r) (h : r.n < r.max_events) where
    unfoldable stored : Ring F
    stored = record r {
      buf = set r.buf ((r.head + r.n) % r.max_events) (some e);
      n = r.n + 1;
      bytes = r.bytes + e.size;
    }

    store-room : store e r ≡ stored
    unfolding store stored
    store-room = let room : leb r.max_events r.n ≡ false = ground arith in rw room

    snapshot-stored : snapshot stored ≡ snapshot r ++ some e ∷ []
    snapshot-stored =
        rw (snapshot-window, snapshot-window)
          (unfold stored in
            window-push none r.max_events r.buf r.head r.n (some e) v.storage v.head_in h)

    pub store-IsValid : IsValid (store e r) × (snapshot (store e r) ≡ snapshot r ++ some e ∷ [])
    store-IsValid =
        let bytes : stored.bytes ≡ r.bytes + e.size = unfold stored in refl in
        rw store-room (
          record {
            storage =
                unfold stored in
                length-set r.buf ((r.head + r.n) % r.max_events) (some e) ∙ v.storage;
            head_in = unfold stored in v.head_in;
            fits = unfold stored in omega arith;
            counted = omega (
              arith,
              bytes,
              v.counted,
              ap total snapshot-stored,
              total-append (snapshot r) (some e ∷ []),
            );
          },
          snapshot-stored,
        )

  abbrev pub new_entry : ℕ → Event F → RingEntry F
  new_entry seq ev = record { seq = seq; event = ev; size = size ev }

  module _ (seq : ℕ) (ev : Event F) (r : Ring F) (v : IsValid r)
      (some_room : 0 < r.max_events) where
    evicted : IsEvicted (size ev) r (evict r.n (size ev) r)
    evicted = evict-IsEvicted r.n (size ev) r v (omega arith)

    has_room : (evict r.n (size ev) r).n < (evict r.n (size ev) r).max_events
    has_room = go evicted.room
      where
        go :
            ((evict r.n (size ev) r).n ≡ 0) ⊎ (is_full (size ev) (evict r.n (size ev) r) ≡ false)
            → (evict r.n (size ev) r).n < (evict r.n (size ev) r).max_events
        go (inl e) = omega (arith, evicted.same_events)
        go (inr e) = ground (arith, evicted.same_events)

    pub add-IsValid : IsValid (add seq ev r)
    unfolding add
    add-IsValid =
        (store-IsValid (new_entry seq ev) (evict r.n (size ev) r) evicted.valid has_room).0

    -- `add` is the specification's trim, then the new entry at the end: the entries that stay are the
    -- most recent ones, in order, and no more of them are dropped than the two bounds ask for.
    pub snapshot-add :
        snapshot (add seq ev r)
        ≡ trim r.max_events r.max_bytes (size ev) (snapshot r) ++ some (new_entry seq ev) ∷ []
    unfolding add
    snapshot-add =
        (store-IsValid (new_entry seq ev) (evict r.n (size ev) r) evicted.valid has_room).1
        ∙ ap (λ l. l ++ some (new_entry seq ev) ∷ []) evicted.trimmed
