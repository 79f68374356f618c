-- ===== src/Index/Expiry.antt =====
-- PopDue (index.go): what it returns.
use riemann_go.Base.{
  ℕ, zero, suc, ◌<◌, ◌≡◌, ◌⊎◌, refl, sym, ap, true, false, not, none, some, List, [], ◌∷◌, arith,
  ◌==◌, length, get_or, Bool-cases, Option-cases, inl, inr, All, ==_iff,
}
use riemann_go.Base.Float.{Float}
use riemann_go.Base.Assoc.{lookup}
use riemann_go.Heap.Items.{count, pop-items, count-find}
use riemann_go.Heap.Queue.{pop-least, pop-root}
use riemann_go.Index.{
  Index, HeapItem, Entry, Key, Due, key_instance, due_key, less, popped, peek, is_stale, due_of,
  due_loop, pop_due,
}
use riemann_go.Index.Inv.{IsIndexed, IsKnown, item_order, has_gen, popped-IsIndexed}

-- No entry is out of the heap.
abbrev pub NothingOut : Key → ℕ → Type 0
NothingOut k g = ⊥

-- The list has a Due for the entry of `k` with generation `g`.
abbrev pub InDues : List Due → Key → ℕ → Type 0
InDues [] k g = ⊥
InDues (d ∷ ds) k g = (k ≡ due_key d) × (g ≡ d.gen) ⊎ InDues ds k g

module _ {F : Type 0} ⦃fl : Float F⦄ where
  -- A Due of an entry of the table whose deadline lies before `now`.
  abbrev pub IsPast : F → Index F → Due → Type 0
  IsPast now x d =
      (e : Entry F) × (lookup (due_key d) x.entries ≡ some e)
      × (e.gen ≡ d.gen)
      × (fl.flt e.deadline now ≡ true)

module _ {F : Type 0} ⦃fl : Float F⦄ (z : HeapItem F) (now : F) where
  -- The entries that are out of the heap before, with those of the list.
  abbrev pub Joined : (Key → ℕ → Type 0) → List Due → Key → ℕ → Type 0
  Joined P ds k g = P k g ⊎ InDues ds k g

  pub record IsPopped (P : Key → ℕ → Type 0) (x : Index F) (r : List Due × Index F) : Type 0 where
    pub same_table : r.1.entries ≡ x.entries
    pub indexed : IsIndexed z (Joined P r.0) r.1
    pub past : All (IsPast now x) r.0
    pub none_due : (i : ℕ) → i < length r.1.heap → fl.flt (get_or r.1.heap i z).deadline now ≡ false

  pub peek-cases :
      (h : List (HeapItem F))
      → (length h ≡ 0) × (peek h ≡ none) ⊎ (0 < length h) × (peek h ≡ some (get_or h 0 z))
  peek-cases [] = inl (refl, refl)
  peek-cases (it ∷ h) = inr (omega arith, refl)

  stop :
      (P : Key → ℕ → Type 0) (x : Index F)
      → IsIndexed z P x
      → ((i : ℕ) → i < length x.heap → fl.flt (get_or x.heap i z).deadline now ≡ false)
      → IsPopped P x ([], x)
  stop P x v h = record {
    same_table = refl;
    indexed = record {
      heaped = v.heaped;
      gens = v.gens;
      unique = v.unique;
      covered = λ k e look. wider (v.covered k e look);
    };
    past = tt;
    none_due = h;
  }
    where
      wider : {A B C : Type 0} → A ⊎ B → A ⊎ (B ⊎ C)
      wider (inl a) = inl a
      wider (inr b) = inr (inl b)

  module _ (fuel : ℕ) (x : Index F) where
    due_loop-empty : peek x.heap ≡ none → due_loop z now (suc fuel) x ≡ ([], x)
    unfolding due_loop
    due_loop-empty e = rw (due_loop, e)

    module _ (some_item : peek x.heap ≡ some (get_or x.heap 0 z)) where
      due_loop-later :
          fl.flt (get_or x.heap 0 z).deadline now ≡ false → due_loop z now (suc fuel) x ≡ ([], x)
      unfolding due_loop
      due_loop-later e = rw (due_loop, some_item, e)

      due_loop-stale :
          fl.flt (get_or x.heap 0 z).deadline now ≡ true
          → is_stale (get_or x.heap 0 z) (lookup (get_or x.heap 0 z).k x.entries) ≡ true
          → due_loop z now (suc fuel) x ≡ due_loop z now fuel (popped z x)
      unfolding due_loop
      due_loop-stale e f = rw (due_loop, some_item, e, f)

      due_loop-live :
          fl.flt (get_or x.heap 0 z).deadline now ≡ true
          → is_stale (get_or x.heap 0 z) (lookup (get_or x.heap 0 z).k x.entries) ≡ false
          → due_loop z now (suc fuel) x ≡ (
            due_of (get_or x.heap 0 z) ∷ (due_loop z now fuel (popped z x)).0,
            (due_loop z now fuel (popped z x)).1,
          )
      unfolding due_loop
      due_loop-live e f = rw (due_loop, some_item, e, f)

  abbrev pub first : Index F → HeapItem F
  first x = get_or x.heap 0 z

  -- Where the root of the heap is not due, nothing in the heap is.
  root_later :
      (P : Key → ℕ → Type 0) (x : Index F)
      → IsIndexed z P x
      → fl.flt (first x).deadline now ≡ false
      → (i : ℕ) → i < length x.heap
      → fl.flt (get_or x.heap i z).deadline now ≡ false
  root_later P x v e i hi =
      let pos : 0 < length x.heap = omega arith in
      let least =
        rw (pop-root less z (IsKnown x) (item_order x) x.heap v.heaped pos) at
          (pop-least less z (IsKnown x) (item_order x) x.heap v.heaped pos i hi) in
      later (get_or x.heap i z) (first x) (v.heaped.oks 0 pos).timed least e
    where
      later :
          (y r : HeapItem F)
          → fl.is_nan r.deadline ≡ false
          → less y r ≡ false
          → fl.flt r.deadline now ≡ false
          → fl.flt y.deadline now ≡ false
      later y r real h k = unfold less in ground (arith, fl.flt_split y.deadline r.deadline now)

  -- An item that is not stale is the one of its key's entry.
  pub live_item :
      (P : Key → ℕ → Type 0) (x : Index F)
      → IsIndexed z P x
      → 0 < length x.heap
      → is_stale (first x) (lookup (first x).k x.entries) ≡ false
      → (e : Entry F) × (lookup (first x).k x.entries ≡ some e)
        × (e.gen ≡ (first x).gen)
        × (e.deadline ≡ (first x).deadline)
  live_item P x v pos fresh = elim (Option-cases (lookup (first x).k x.entries)) [
    | inl absent ↦ absurd (missing (first x) (rw absent at fresh))
    | inr (e, present) ↦
        let g : e.gen ≡ (first x).gen = not_stale (first x) e (rw present at fresh) in
        let q = (v.heaped.oks 0 pos).entry (first x).k e present g in
        (e, present, g, ap (λ (it : HeapItem F). it.deadline) (sym q))
  ]
    where
      missing : (it : HeapItem F) → is_stale it none ≡ false → ⊥
      missing it h = unfold is_stale in cc h

      not_stale : (it : HeapItem F) (e : Entry F) → is_stale it (some e) ≡ false → e.gen ≡ it.gen
      not_stale it e h = unfold is_stale in ground arith

  -- The entry of a root is its key's.
  pub root_key :
      (P : Key → ℕ → Type 0) (x : Index F)
      → IsIndexed z P x
      → 0 < length x.heap
      → (k : Key) (e : Entry F) → lookup k x.entries ≡ some e
      → (first x).gen ≡ e.gen
      → (k ≡ (first x).k) × (lookup (first x).k x.entries ≡ some e)
  root_key P x v pos k e h g =
      let q = (v.heaped.oks 0 pos).entry k e h (sym g) in
      let s : k ≡ (first x).k = ap (λ (it : HeapItem F). it.k) (sym q) in (s, rw s at h)

  pub same_gen :
      (x : Index F) (e : Entry F)
      → is_stale (first x) (lookup (first x).k x.entries) ≡ true
      → lookup (first x).k x.entries ≡ some e
      → (first x).gen ≡ e.gen
      → ⊥
  unfolding is_stale
  same_gen x e stale h g = clash (first x).gen e.gen (rw h at stale) g
    where
      clash : (a b : ℕ) → not (b == a) ≡ true → a ≡ b → ⊥
      clash a b t q = ground arith

  abbrev WithRoot : (Key → ℕ → Type 0) → Index F → Key → ℕ → Type 0
  WithRoot P x k g = P k g ⊎ (k ≡ (first x).k) × (g ≡ (first x).gen)

  popped-live :
      (P : Key → ℕ → Type 0) (x : Index F)
      → IsIndexed z P x
      → 0 < length x.heap
      → IsIndexed z (WithRoot P x) (popped z x)
  popped-live P x v pos =
      popped-IsIndexed z P (WithRoot P x) x pos v
        (λ k e h. ((λ _ p. inl p), λ g. inr ((root_key P x v pos k e h g).0, sym g)))

  live_step :
      (P : Key → ℕ → Type 0) (x : Index F) (r : List Due × Index F)
      → IsIndexed z P x
      → 0 < length x.heap
      → fl.flt (first x).deadline now ≡ true
      → is_stale (first x) (lookup (first x).k x.entries) ≡ false
      → IsPopped (WithRoot P x) (popped z x) r
      → IsPopped P x (due_of (first x) ∷ r.0, r.1)
  live_step P x r v pos due fresh ih =
      let (e, present, g, dl) = live_item P x v pos fresh in
      record {
        same_table = ih.same_table;
        indexed = record {
          heaped = ih.indexed.heaped;
          gens = ih.indexed.gens;
          unique = ih.indexed.unique;
          covered = λ k e h. regroup (ih.indexed.covered k e h);
        };
        past = ((e, present, g, rw dl due), ih.past);
        none_due = ih.none_due;
      }
    where
      regroup : {A B C D : Type 0} → A ⊎ (B ⊎ C) ⊎ D → A ⊎ B ⊎ C ⊎ D
      regroup (inl a) = inl a
      regroup (inr (inl (inl b))) = inr (inl b)
      regroup (inr (inl (inr c))) = inr (inr (inl c))
      regroup (inr (inr d)) = inr (inr (inr d))

  pub due_loop-IsPopped :
      (fuel : ℕ) (P : Key → ℕ → Type 0) (x : Index F)
      → length x.heap < fuel
      → IsIndexed z P x
      → IsPopped P x (due_loop z now fuel x)
  due_loop-IsPopped zero P x h v = absurd (omega arith)
  due_loop-IsPopped (suc fuel) P x h v = elim (peek-cases x.heap) [
    | inl (len0, e) ↦ rw (due_loop-empty fuel x e) (stop P x v (λ i hi. absurd (omega arith)))
    | inr (pos, e) ↦ elim (Bool-cases (fl.flt (first x).deadline now)) [
      | inr later ↦ rw (due_loop-later fuel x e later) (stop P x v (root_later P x v later))
      | inl due ↦ elim (Bool-cases (is_stale (first x) (lookup (first x).k x.entries))) [
        | inl stale ↦ rw (due_loop-stale fuel x e due stale) (
            let ih =
              due_loop-IsPopped fuel P (popped z x) (omega (arith, (pop-items less z x.heap pos).0))
                (popped-IsIndexed z P P x pos v (λ k e h. (
                  (λ _ p. p),
                  λ g. absurd (same_gen x e stale (root_key P x v pos k e h g).1 g),
                ))) in
            record {
              same_table = ih.same_table;
              indexed = ih.indexed;
              past = ih.past;
              none_due = ih.none_due;
            })
        | inr fresh ↦ rw (due_loop-live fuel x e due fresh) (
            live_step P x _ v pos due fresh (
              due_loop-IsPopped fuel (WithRoot P x) (popped z x)
                (omega (arith, (pop-items less z x.heap pos).0)) (popped-live P x v pos)))
      ]
    ]
  ]

  -- PopDue at `now`, of an index with all its entries in the heap: every Due is of an entry whose
  -- deadline lies before `now`, every such entry has its Due, the table is as it was, and nothing left
  -- in the heap is due.
  pub pop_due_lem :
      (x : Index F)
      → IsIndexed z NothingOut x
      → All (IsPast now x) (pop_due z now x).0
        × ((k : Key) (e : Entry F)
            → lookup k x.entries ≡ some e
            → fl.flt e.deadline now ≡ true
            → InDues (pop_due z now x).0 k e.gen)
        × IsPopped NothingOut x (pop_due z now x)
  unfolding pop_due
  pop_due_lem x v =
      let r = due_loop-IsPopped (suc (length x.heap)) NothingOut x (omega arith) v in
      (r.past, λ k e h due. complete r k e (rw (← r.same_table) at h) due, r)
    where
      complete :
          {x : Index F} {q : List Due × Index F}
          → IsPopped NothingOut x q
          → (k : Key) (e : Entry F) → lookup k q.1.entries ≡ some e
          → fl.flt e.deadline now ≡ true
          → InDues q.0 k e.gen
      complete {q = q} r k e h due = from (r.indexed.covered k e h)
        where
          from :
              (0 < count (has_gen e.gen) q.1.heap) ⊎ Joined NothingOut q.0 k e.gen
              → InDues q.0 k e.gen
          from (inr (inl b)) = absurd b
          from (inr (inr d)) = d
          from (inl c) =
              let (i, hi, g) = count-find (has_gen e.gen) q.1.heap z c in
              let it = (r.indexed.heaped.oks i hi).entry k e h (sym ((==_iff _ _).0 g)) in
              cc (r.none_due i hi, due, ap (λ (y : HeapItem F). fl.flt y.deadline now) it)
