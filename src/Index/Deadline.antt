-- ===== src/Index/Deadline.antt =====
-- NextDeadline, by which a loop sets its timer: the earliest deadline of the table.
use riemann_go.Base.{
  ℕ, zero, suc, ◌<◌, ◌≡◌, ◌⊎◌, refl, sym, ap, ◌∙◌, true, false, Option, none, some, arith, length,
  get_or, Bool-cases, Option-cases, inl, inr, some-eq, ==_iff,
}
use riemann_go.Base.Float.{Float}
use riemann_go.Base.Assoc.{lookup}
use riemann_go.Heap.Items.{count, pop-items, count-find}
use riemann_go.Heap.Queue.{pop-least, pop-root}
use riemann_go.Index.{
  Index, HeapItem, Entry, Key, key_instance, less, popped, peek, is_stale, next_loop, next_deadline,
}
use riemann_go.Index.Inv.{IsIndexed, IsKnown, item_order, has_gen, popped-IsIndexed}
use riemann_go.Index.Expiry.{NothingOut, peek-cases, first, live_item, root_key, same_gen}

module _ {F : Type 0} ⦃fl : Float F⦄ (z : HeapItem F) where
  -- An answer of NextDeadline: none only of an empty table, and else the deadline of an entry that no
  -- entry's deadline lies before. The table stays as it was, in agreement with the heap.
  pub record IsNext (x : Index F) (r : Option F × Index F) : Type 0 where
    pub same_table : r.1.entries ≡ x.entries
    pub indexed : IsIndexed z NothingOut r.1
    pub nothing_left : r.0 ≡ none → (k : Key) → lookup k x.entries ≡ none
    pub reached :
        (d : F)
        → r.0 ≡ some d
        → (k : Key) × (e : Entry F) × (lookup k x.entries ≡ some e) × (e.deadline ≡ d)
    pub least :
        (d : F)
        → r.0 ≡ some d
        → (k : Key) (e : Entry F) → lookup k x.entries ≡ some e
        → fl.flt e.deadline d ≡ false

  module _ (fuel : ℕ) (x : Index F) where
    next_loop-empty : peek x.heap ≡ none → next_loop z (suc fuel) x ≡ (none, x)
    unfolding next_loop
    next_loop-empty e = rw (next_loop, e)

    next_loop-stale :
        peek x.heap ≡ some (first z z.deadline x)
        → is_stale (first z z.deadline x) (lookup (first z z.deadline x).k x.entries) ≡ true
        → next_loop z (suc fuel) x ≡ next_loop z fuel (popped z x)
    unfolding next_loop
    next_loop-stale e f = rw (next_loop, e, f)

    next_loop-live :
        peek x.heap ≡ some (first z z.deadline x)
        → is_stale (first z z.deadline x) (lookup (first z z.deadline x).k x.entries) ≡ false
        → next_loop z (suc fuel) x ≡ (some (first z z.deadline x).deadline, x)
    unfolding next_loop
    next_loop-live e f = rw (next_loop, e, f)

  -- The item of an entry in the heap.
  item_at :
      (x : Index F)
      → IsIndexed z NothingOut x
      → (k : Key) (e : Entry F) → lookup k x.entries ≡ some e
      → (i : ℕ) × (i < length x.heap) × ((get_or x.heap i z).deadline ≡ e.deadline)
  item_at x v k e h = from (v.covered k e h)
    where
      from :
          (0 < count (has_gen e.gen) x.heap) ⊎ NothingOut k e.gen
          → (i : ℕ) × (i < length x.heap) × ((get_or x.heap i z).deadline ≡ e.deadline)
      from (inr b) = absurd b
      from (inl c) =
          let (i, hi, g) = count-find (has_gen e.gen) x.heap z c in
          let it = (v.heaped.oks i hi).entry k e h (sym ((==_iff _ _).0 g)) in
          (i, hi, ap (λ (y : HeapItem F). y.deadline) it)

  root_least :
      (x : Index F)
      → IsIndexed z NothingOut x
      → 0 < length x.heap
      → (k : Key) (e : Entry F) → lookup k x.entries ≡ some e
      → fl.flt e.deadline (first z z.deadline x).deadline ≡ false
  unfolding less
  root_least x v pos k e h =
      let (i, hi, same) = item_at x v k e h in
      let least =
        rw (pop-root less z (IsKnown x) (item_order x) x.heap v.heaped pos) at
          (pop-least less z (IsKnown x) (item_order x) x.heap v.heaped pos i hi) in
      rw (← same) least

  empty-IsNext : (x : Index F) → IsIndexed z NothingOut x → length x.heap ≡ 0 → IsNext x (none, x)
  empty-IsNext x v len0 = record {
    same_table = refl;
    indexed = v;
    nothing_left = λ _ k. elim (Option-cases (lookup k x.entries)) [
      | inl absent ↦ absent
      | inr (e, present) ↦
          let (i, hi, _) = item_at x v k e present in absurd (omega (arith, len0, hi))
    ];
    reached = λ d h. absurd (ground (arith, h));
    least = λ d h. absurd (ground (arith, h));
  }

  live-IsNext :
      (x : Index F)
      → IsIndexed z NothingOut x
      → 0 < length x.heap
      → is_stale (first z z.deadline x) (lookup (first z z.deadline x).k x.entries) ≡ false
      → IsNext x (some (first z z.deadline x).deadline, x)
  live-IsNext x v pos fresh =
      let (e, present, _, dl) = live_item z z.deadline NothingOut x v pos fresh in
      record {
        same_table = refl;
        indexed = v;
        nothing_left = λ h. absurd (ground (arith, h));
        reached = λ d h. ((first z z.deadline x).k, e, present, dl ∙ some-eq _ _ h);
        least = λ d h k e' p. rw (← some-eq _ _ h) (root_least x v pos k e' p);
      }

  next_loop-IsNext :
      (fuel : ℕ) (x : Index F)
      → length x.heap < fuel
      → IsIndexed z NothingOut x
      → IsNext x (next_loop z fuel x)
  next_loop-IsNext zero x h v = absurd (omega arith)
  next_loop-IsNext (suc fuel) x h v = elim (peek-cases z z.deadline x.heap) [
    | inl (len0, e) ↦ rw (next_loop-empty fuel x e) (empty-IsNext x v len0)
    | inr (pos, e) ↦
        elim (Bool-cases
          (is_stale (first z z.deadline x) (lookup (first z z.deadline x).k x.entries))) [
            | inr fresh ↦ rw (next_loop-live fuel x e fresh) (live-IsNext x v pos fresh)
            | inl stale ↦
                let ih =
                  next_loop-IsNext fuel (popped z x)
                    (omega (arith, (pop-items less z x.heap pos).0))
                    (popped-IsIndexed z NothingOut NothingOut x pos v (λ k e h. (
                      (λ _ p. p),
                      λ g. absurd (
                          same_gen z z.deadline x e stale
                            (root_key z z.deadline NothingOut x v pos k e h g).1 g),
                    ))) in
                rw (next_loop-stale fuel x e stale) record {
                  same_table = ih.same_table;
                  indexed = ih.indexed;
                  nothing_left = ih.nothing_left;
                  reached = ih.reached;
                  least = ih.least;
                }
          ]
  ]

  -- NextDeadline, of an index whose heap has all of its entries, answers none only if the table is
  -- empty, and else the deadline of an entry that no other entry's deadline lies before; the stale
  -- items that it drops leave the table as it was and in agreement with the heap.
  pub next_deadline-IsNext : (x : Index F) → IsIndexed z NothingOut x → IsNext x (next_deadline z x)
  unfolding next_deadline
  next_deadline-IsNext x v = next_loop-IsNext (suc (length x.heap)) x (omega arith) v
