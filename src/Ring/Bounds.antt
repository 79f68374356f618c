-- ===== src/Ring/Bounds.antt =====
-- The two bounds of a ring, and what an add keeps.
use riemann_go.Base.{
  ℕ, ◌+◌, ◌≤◌, ◌<◌, ◌≡◌, ◌⊎◌, inl, inr, refl, ap, sym, ◌∙◌, ◌||◌, Option, some, List, [], ◌∷◌, ◌++◌,
  arith, ltb, leb, length, length-append, Bool-cases,
}
use riemann_go.Event.{Event, size}
use riemann_go.Ring.{Ring, RingEntry, add, snapshot, stats}
use riemann_go.Ring.Contents.{
  IsValid, total, total-append, trim, length-snapshot, add-IsValid, snapshot-add, new_entry,
}

module _ {F : Type 0} (a b s : ℕ) where
  -- What trim keeps is the end of the list, and with an event of `s` bytes it is within both bounds,
  -- or it is nothing.
  trim-suffix :
      (l : List (Option (RingEntry F)))
      → (dropped : List (Option (RingEntry F))) × (l ≡ dropped ++ trim a b s l)
  unfolding trim
  trim-suffix [] = ([], refl)
  trim-suffix (x ∷ xs) =
      let ih = trim-suffix xs in
      elim (Bool-cases (leb a (length (x ∷ xs)) || ltb b (total (x ∷ xs) + s))) [
        | inl e ↦ (x ∷ ih.0, rw (e, trim) (ap (◌∷◌ x) ih.1))
        | inr e ↦ ([], rw (e, trim))
      ]

  trim_bounds :
      (l : List (Option (RingEntry F)))
      → (trim a b s l ≡ []) ⊎ ((length (trim a b s l) < a) × (total (trim a b s l) + s ≤ b))
  unfolding trim
  trim_bounds [] = inl refl
  trim_bounds (x ∷ xs) =
      let ih = trim_bounds xs in
      elim (Bool-cases (leb a (length (x ∷ xs)) || ltb b (total (x ∷ xs) + s))) [
        | inl e ↦ rw (e, trim) ih
        | inr e ↦ rw (e, trim) (inr (ground arith, ground arith))
      ]

module _ {F : Type 0} (seq : ℕ) (ev : Event F) (r : Ring F) (v : IsValid r)
    (h : 0 < r.max_events) where
  -- After an add the ring holds at most its number of events, and its bytes are within their bound,
  -- unless the event just added is the only one: one larger than the whole bound is stored alone.
  pub add_bounds :
      ((stats (add seq ev r)).0 ≤ r.max_events)
      × (((stats (add seq ev r)).1 ≤ r.max_bytes)
          ⊎ (snapshot (add seq ev r) ≡ some (new_entry seq ev) ∷ []))
  unfolding stats
  add_bounds =
      let after = snapshot-add seq ev r v h in
      let kept = trim r.max_events r.max_bytes (size ev) (snapshot r) in
      let n : (add seq ev r).n ≡ length kept + 1 =
        sym (length-snapshot (add seq ev r)) ∙ ap length after ∙ length-append kept _ in
      let bytes : (add seq ev r).bytes ≡ total kept + size ev = omega (
        arith,
        (add-IsValid seq ev r v h).counted,
        ap total after,
        total-append kept (some (new_entry seq ev) ∷ []),
      ) in
      go (trim_bounds r.max_events r.max_bytes (size ev) (snapshot r)) n bytes after
    where
      go :
          {kept : List (Option (RingEntry F))}
          → (kept ≡ []) ⊎ ((length kept < r.max_events) × (total kept + size ev ≤ r.max_bytes))
          → (add seq ev r).n ≡ length kept + 1
          → (add seq ev r).bytes ≡ total kept + size ev
          → snapshot (add seq ev r) ≡ kept ++ some (new_entry seq ev) ∷ []
          → ((add seq ev r).n ≤ r.max_events)
            × (((add seq ev r).bytes ≤ r.max_bytes)
                ⊎ (snapshot (add seq ev r) ≡ some (new_entry seq ev) ∷ []))
      go (inl e) n b s = (omega (arith, ap length e), inr (rw e at s))
      go (inr p) n b s = (omega arith, inl (omega arith))
