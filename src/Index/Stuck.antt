-- ===== src/Index/Stuck.antt =====
-- A deadline that is NaN, at the root of the heap.
use riemann_go.Base.{
  ℕ, zero, suc, ◌<◌, ◌≡◌, refl, ◌∙◌, Bool, true, false, not, ◌||◌, ◌&&◌, some, List, [], ◌∷◌, ◌++◌,
  arith, ◌==◌, length, leb, get_or, length-append, Bool-cases, inl, inr, str_eq, ap, sym, subst,
  All, if_false,
}
use riemann_go.Base.Float.{Float}
use riemann_go.Base.Assoc.{lookup, lookup-insert, lookup-erase}
use riemann_go.Event.{Event, expired_state}
use riemann_go.Heap.{parent, swap, less_at, up, push}
use riemann_go.Heap.Items.{length-swap, get_or-swap, push-items}
use riemann_go.Index.{
  Index, HeapItem, Entry, Key, key_eq, key_instance, key_of, item_of, new_entry, less, is_new, put,
  insert_event, peek, is_stale, pop_due, due_loop, next_deadline, next_loop,
}

module _ {A : Type 0} (less : A → A → Bool) (d : A) where
  -- What nothing is less than stays at the root while another element rises.
  up-root :
      (fuel : ℕ) (a : List A) (j : ℕ)
      → 0 < j
      → j < length a
      → ((y : A) → less y (get_or a 0 d) ≡ false)
      → get_or (up less d fuel a j) 0 d ≡ get_or a 0 d
  unfolding up
  up-root zero a j pos hi h = refl
  up-root (suc fuel) a j pos hi h =
      elim (Bool-cases (parent j == j || not (less_at less d a j (parent j)))) [
        | inl stays ↦ rw (up, stays) refl
        | inr rises ↦
            let below : 0 < parent j =
              above_root (parent j) (get_or a j d) a h (or_not _ _ rises) in
            let same : get_or (swap d a (parent j) j) 0 d ≡ get_or a 0 d =
              ground (arith, get_or-swap d a (parent j) j (omega arith) hi 0) in
            rw (up, rises)
              (up-root fuel (swap d a (parent j) j) (parent j) below
                  (omega (arith, length-swap d a (parent j) j)) (λ y. rw same (h y))
                ∙ same)
      ]
    where
      or_not : (a b : Bool) → (a || not b) ≡ false → b ≡ true
      or_not a b e = ground arith

      above_root :
          (i : ℕ) (x : A) (a : List A)
          → ((y : A) → less y (get_or a 0 d) ≡ false)
          → less x (get_or a i d) ≡ true
          → 0 < i
      above_root zero x a h e = absurd (ground (arith, h x, e))
      above_root (suc i) x a h e = omega arith

  get_or-append_first :
      (a : List A) (x : A) → 0 < length a → get_or (a ++ x ∷ []) 0 d ≡ get_or a 0 d
  get_or-append_first [] x h = absurd (omega arith)
  get_or-append_first (y ∷ a) x h = refl

  push-root :
      (x : A) (a : List A)
      → 0 < length a
      → ((y : A) → less y (get_or a 0 d) ≡ false)
      → get_or (push less d x a) 0 d ≡ get_or a 0 d
  unfolding push
  push-root x a pos h =
      let first = get_or-append_first a x pos in
      up-root (suc (length a)) (a ++ x ∷ []) (length a) pos
        (omega (arith, length-append a (x ∷ []))) (λ y. rw first (h y))
      ∙ first

-- A critical section on an index: Insert, NextDeadline, or PopDue at an instant.
pub data Call (F : Type 0) : Type 0 where
  inserts : Event F → Call F
  asks : Call F
  expires : F → Call F

-- The call does not insert for this identity.
abbrev pub Spares : {F : Type 0} → Key → Call F → Type 0
Spares k (inserts ev) = key_eq (key_of ev) k ≡ false
Spares k _ = Unit

module _ {F : Type 0} ⦃fl : Float F⦄ (z : HeapItem F) where
  -- The item stands at the root of the heap, its deadline is NaN, and its entry is still in the table.
  pub record IsStuck (it : HeapItem F) (x : Index F) : Type 0 where
    pub filled : 0 < length x.heap
    pub root : get_or x.heap 0 z ≡ it
    pub nan : fl.is_nan it.deadline ≡ true
    pub current : (e : Entry F) × (lookup it.k x.entries ≡ some e) × (e.gen ≡ it.gen)

  unfoldable pub call : Call F → Index F → Index F
  call (inserts ev) x = (insert_event z ev x).1
  call asks x = (next_deadline z x).1
  call (expires now) x = (pop_due z now x).1

  unfoldable pub call_all : List (Call F) → Index F → Index F
  call_all [] x = x
  call_all (c ∷ cs) x = call_all cs (call c x)

  nothing_below : (y it : HeapItem F) → fl.is_nan it.deadline ≡ true → less y it ≡ false
  unfolding less
  nothing_below y it n = elim (Bool-cases (fl.flt y.deadline it.deadline)) [
    | inr e ↦ e
    | inl e ↦ absurd (ground (arith, n, fl.flt_nan y.deadline it.deadline e))
  ]

  put-IsStuck :
      (ev : Event F) (it : HeapItem F) (x : Index F)
      → key_eq (key_of ev) it.k ≡ false
      → IsStuck it x
      → IsStuck it (put z ev x)
  unfolding put
  put-IsStuck ev it x other h =
      let new = item_of (key_of ev) (new_entry ev x) in
      let (e, there, same) = h.current in
      record {
        filled = omega (arith, (push-items less z new x.heap).0, h.filled);
        root =
            push-root less z new x.heap h.filled
              (λ y. nothing_below y (get_or x.heap 0 z) (rw h.root h.nan))
            ∙ h.root;
        nan = h.nan;
        current = (
          e,
          lookup-insert (key_of ev) it.k (new_entry ev x) x.entries ∙ if_false _ _ other ∙ there,
          same,
        );
      }

  insert_event-IsStuck :
      (ev : Event F) (it : HeapItem F) (x : Index F)
      → key_eq (key_of ev) it.k ≡ false
      → IsStuck it x
      → IsStuck it (insert_event z ev x).1
  unfolding insert_event
  insert_event-IsStuck ev it x other h = elim (Bool-cases (str_eq ev.state expired_state)) [
    | inl gone ↦
        let (e, there, same) = h.current in
        rw gone record {
          filled = h.filled;
          root = h.root;
          nan = h.nan;
          current = (e, lookup-erase (key_of ev) it.k x.entries ∙ if_false _ _ other ∙ there, same);
        }
    | inr alive ↦
        elim (Bool-cases (is_new (lookup (key_of ev) x.entries) && leb x.max (length x.entries))) [
          | inl full ↦
              rw (alive, full)
                record { filled = h.filled; root = h.root; nan = h.nan; current = h.current }
          | inr room ↦ rw (alive, room) (put-IsStuck ev it x other h)
        ]
  ]

  peek-root : (h : List (HeapItem F)) → 0 < length h → peek h ≡ some (get_or h 0 z)
  peek-root [] p = absurd (omega arith)
  peek-root (it ∷ h) p = refl

  pop_due-IsStuck :
      (now : F) (it : HeapItem F) (x : Index F) → IsStuck it x → pop_due z now x ≡ ([], x)
  unfolding pop_due due_loop
  pop_due-IsStuck now it x h =
      let e = peek-root x.heap h.filled ∙ ap some h.root in
      elim (Bool-cases (fl.flt it.deadline now)) [
        | inr later ↦ rw (due_loop, e, later)
        | inl due ↦ absurd (ground (arith, h.nan, fl.flt_nan it.deadline now due))
      ]

  fresh_item : (it : HeapItem F) (e : Entry F) → e.gen ≡ it.gen → is_stale it (some e) ≡ false
  unfolding is_stale
  fresh_item it e h = ground arith

  next_deadline-IsStuck :
      (it : HeapItem F) (x : Index F) → IsStuck it x → next_deadline z x ≡ (some it.deadline, x)
  unfolding next_deadline next_loop
  next_deadline-IsStuck it x h =
      let (e, there, same) = h.current in
      let first = peek-root x.heap h.filled ∙ ap some h.root in
      let fresh = ap (is_stale it) there ∙ fresh_item it e same in rw (next_loop, first, fresh)

  call-IsStuck :
      (c : Call F) (it : HeapItem F) (x : Index F)
      → Spares it.k c
      → IsStuck it x
      → IsStuck it (call c x)
  unfolding call
  call-IsStuck (inserts ev) it x other h = insert_event-IsStuck ev it x other h
  call-IsStuck asks it x other h =
      subst (λ r. IsStuck it r.1) (sym (next_deadline-IsStuck it x h)) h
  call-IsStuck (expires now) it x other h =
      subst (λ r. IsStuck it r.1) (sym (pop_due-IsStuck now it x h)) h

  -- While an item whose deadline is NaN is at the root of the heap and its entry is in the table, PopDue
  -- finds nothing due, at no instant, whatever calls of Insert for other identities, of NextDeadline and
  -- of PopDue come between; and NextDeadline answers the NaN.
  pub pop_due-stuck :
      (cs : List (Call F)) (now : F) (it : HeapItem F) (x : Index F)
      → IsStuck it x
      → All (Spares it.k) cs
      → (pop_due z now (call_all cs x) ≡ ([], call_all cs x))
        × (next_deadline z (call_all cs x) ≡ (some it.deadline, call_all cs x))
  unfolding call_all
  pop_due-stuck [] now it x h other = (pop_due-IsStuck now it x h, next_deadline-IsStuck it x h)
  pop_due-stuck (c ∷ cs) now it x h other =
      pop_due-stuck cs now it (call c x) (call-IsStuck c it x other.0 h) other.1
