-- ===== src/Index/Inv.antt =====
-- The invariant of a partition's index: table and heap agree. `P k g` says that the entry of `k` with
-- generation `g` has left the heap and waits to be removed, as between PopDue and Remove.
use riemann_go.Base.{
  some-eq, ℕ, ◌+◌, ◌≤◌, ◌<◌, ◌≡◌, ◌≢◌, ◌⊎◌, refl, sym, ap, ◌∙◌, Bool, true, false, ◌&&◌, some,
  str_eq, leb, ◌==◌, arith, if◌then◌else◌, length, get_or, add64, word, Bool-cases, Option-cases,
  inl, inr, leb→le, ==_iff,
}
use riemann_go.Base.Float.{Float, not_flt_trans, flt_asym}
use riemann_go.Base.Assoc.{lookup, erase, lookup-insert, lookup-erase}
use riemann_go.Event.{Event, expired_state}
use riemann_go.Heap.Items.{count, one_if, push-items, pop-items, count-find}
use riemann_go.Heap.Order.{IsOrder}
use riemann_go.Heap.Queue.{nil-Heaped, Heaped, push-Heaped, pop-Heaped, pop-root}
use riemann_go.Index.{
  new_index, Index, HeapItem, Entry, Key, Due, key_eq, key_instance, key_eq_iff, key_of, due_key,
  new_entry, item_of, is_new, put, insert_event, less, popped, remove_due,
}

left_of : {A B : Type 0} → (B → ⊥) → A ⊎ B → A
left_of f (inl a) = a
left_of f (inr b) = absurd (f b)

differ : (a b : ℕ) → (a == b) ≡ false → a ≡ b → ⊥
differ a b h e = ground arith

module _ {F : Type 0} where
  gone : (j k : Key) (x : Index F) (e : Entry F) → lookup k (erase j x.entries) ≡ some e → j ≡ k → ⊥
  gone j k x e h q =
      let same = (key_eq_iff j k).1 q in cc (rw (lookup-erase j k x.entries, same) at h)

  survives :
      (j k : Key) (x : Index F) (e : Entry F)
      → lookup k (erase j x.entries) ≡ some e
      → lookup k x.entries ≡ some e
  survives j k x e h = elim (Bool-cases (key_eq j k)) [
    | inl same ↦ cc (rw (lookup-erase j k x.entries, same) at h)
    | inr other ↦ rw (lookup-erase j k x.entries, other) at h
  ]

module _ {F : Type 0} ⦃fl : Float F⦄ where
  abbrev pub has_gen : ℕ → HeapItem F → Bool
  has_gen g it = it.gen == g

  -- A heap item of the index: its deadline is no NaN, and the entry of its generation, if it is still
  -- there, is the one that it was pushed for.
  pub record IsKnown (x : Index F) (it : HeapItem F) : Type 0 where
    pub timed : fl.is_nan it.deadline ≡ false
    pub old : it.gen ≤ x.gen
    pub entry :
        (k : Key) (e : Entry F) → lookup k x.entries ≡ some e → e.gen ≡ it.gen → it ≡ item_of k e

  less_trans :
      (a b c : HeapItem F)
      → fl.is_nan b.deadline ≡ false
      → less b a ≡ false
      → less c b ≡ false
      → less c a ≡ false
  unfolding less
  less_trans a b c = not_flt_trans a.deadline b.deadline c.deadline

  pub item_order : (x : Index F) → IsOrder less (IsKnown x)
  item_order x = record {
    irrefl = λ a. unfold less in fl.flt_irrefl a.deadline;
    asym = λ a b. unfold less in flt_asym a.deadline b.deadline;
    trans = λ a b c known. less_trans a b c known.timed;
  }

  pub record IsIndexed (z : HeapItem F) (P : Key → ℕ → Type 0) (x : Index F) : Type 0 where
    pub heaped : Heaped less z (IsKnown x) (item_order x) x.heap
    pub gens : (k : Key) (e : Entry F) → lookup k x.entries ≡ some e → e.gen ≤ x.gen
    pub unique : (g : ℕ) → count (has_gen g) x.heap ≤ 1
    pub covered :
        (k : Key) (e : Entry F)
        → lookup k x.entries ≡ some e
        → (0 < count (has_gen e.gen) x.heap) ⊎ P k e.gen

  module _ (z : HeapItem F) where
    -- Fewer entries, at the same heap and generation.
    pub fewer-IsIndexed :
        (P Q : Key → ℕ → Type 0) (x y : Index F)
        → y.heap ≡ x.heap
        → y.gen ≡ x.gen
        → ((k : Key) (e : Entry F)
            → lookup k y.entries ≡ some e
            → (lookup k x.entries ≡ some e) × (P k e.gen → Q k e.gen))
        → IsIndexed z P x
        → IsIndexed z Q y
    fewer-IsIndexed P Q x y eh eg sub v = record {
      heaped = record {
        order = rw eh v.heaped.order;
        oks = λ i hi.
            let it = v.heaped.oks i (rw eh at hi) in
            rw eh (record {
              timed = it.timed;
              old = rw eg it.old;
              entry = λ k e h g. it.entry k e (sub k e h).0 g;
            });
      };
      gens = λ k e h. rw eg (v.gens k e (sub k e h).0);
      unique = λ g. rw eh (v.unique g);
      covered = λ k e h. rw eh (either (v.covered k e (sub k e h).0) (sub k e h).1);
    }
      where
        either : {A B C : Type 0} → A ⊎ B → (B → C) → A ⊎ C
        either (inl a) f = inl a
        either (inr b) f = inr (f b)

    module _ (P : Key → ℕ → Type 0) (ev : Event F) (x : Index F) (v : IsIndexed z P x)
        (room : x.gen + 1 < word) (timed : fl.is_nan (fl.fadd ev.time ev.ttl) ≡ false) where
      abbrev k₀ : Key
      k₀ = key_of ev

      look :
          (k : Key)
          → lookup k (put z ev x).entries
            ≡ (if key_eq k₀ k then some (new_entry ev x) else lookup k x.entries)
      unfolding put
      look k = lookup-insert (key_of ev) k (new_entry ev x) x.entries

      gen-put : (put z ev x).gen ≡ x.gen + 1
      unfolding put
      gen-put = omega arith

      upgrade : (it : HeapItem F) → IsKnown x it → IsKnown (put z ev x) it
      upgrade it known = record {
        timed = known.timed;
        old = omega (arith, gen-put, known.old);
        entry = λ k e h g. elim (Bool-cases (key_eq k₀ k)) [
          | inl same ↦
              let n = some-eq _ _ (rw (look k, same) at h) in
              absurd (omega (arith, known.old, ap (λ (y : Entry F). y.gen) n))
          | inr other ↦ known.entry k e (rw (look k, other) at h) g
        ];
      }

      fresh : IsKnown (put z ev x) (item_of k₀ (new_entry ev x))
      fresh = record {
        timed = timed;
        old = omega (arith, gen-put);
        entry = λ k e h g. elim (Bool-cases (key_eq k₀ k)) [
          | inl same ↦
              let n = some-eq _ _ (rw (look k, same) at h) in let q = (key_eq_iff k₀ k).0 same in cc
          | inr other ↦ absurd (omega (arith, v.gens k e (rw (look k, other) at h)))
        ];
      }

      no_fresh_gen : count (has_gen (x.gen + 1)) x.heap ≤ 0
      no_fresh_gen = elim (Bool-cases (leb (count (has_gen (x.gen + 1)) x.heap) 0)) [
        | inl e ↦ leb→le _ _ e
        | inr e ↦
            let (i, hi, g) = count-find (has_gen (x.gen + 1)) x.heap z (ground arith) in
            absurd (omega (arith, (v.heaped.oks i hi).old, (==_iff _ _).0 g))
      ]

      pushed-items :
          (g : ℕ)
          → count (has_gen g) (put z ev x).heap ≡ count (has_gen g) x.heap + one_if (x.gen + 1 == g)
      pushed-items g =
          unfold put in
          (push-items less z (item_of k₀ (new_entry ev x)) x.heap).1 (has_gen g)
          ∙ ap (λ (t : ℕ). count (has_gen g) x.heap + one_if (t == g)) (omega arith)

      put-IsIndexed : IsIndexed z P (put z ev x)
      put-IsIndexed = record {
        heaped =
            unfold put in
            push-Heaped less z (IsKnown (put z ev x)) (item_order (put z ev x))
              (item_of k₀ (new_entry ev x)) x.heap
              (record { order = v.heaped.order; oks = λ i hi. upgrade _ (v.heaped.oks i hi) })
              fresh;
        gens = λ k e h. elim (Bool-cases (key_eq k₀ k)) [
          | inl same ↦
              omega
                (arith, gen-put, ap (λ (y : Entry F). y.gen) (some-eq _ _ (rw (look k, same) at h)))
          | inr other ↦ omega (arith, gen-put, v.gens k e (rw (look k, other) at h))
        ];
        unique = λ g. elim (Bool-cases (x.gen + 1 == g)) [
          | inl e ↦
              let q : x.gen + 1 ≡ g = (==_iff _ _).0 e in
              let none_old : count (has_gen g) x.heap ≤ 0 = rw (← q) no_fresh_gen in
              omega (arith, pushed-items g, none_old, ap one_if e)
          | inr e ↦ omega (arith, pushed-items g, v.unique g, ap one_if e)
        ];
        covered = λ k e h. elim (Bool-cases (key_eq k₀ k)) [
          | inl same ↦
              let n = some-eq _ _ (rw (look k, same) at h) in
              let t : (x.gen + 1 == e.gen) ≡ true =
                (==_iff _ _).1 (omega (arith, ap (λ (y : Entry F). y.gen) n)) in
              inl (omega (arith, pushed-items e.gen, ap one_if t))
          | inr other ↦ wider e (v.covered k e (rw (look k, other) at h))
        ];
      }
        where
          wider :
              (e : Entry F) {Q : Type 0}
              → (0 < count (has_gen e.gen) x.heap) ⊎ Q
              → (0 < count (has_gen e.gen) (put z ev x).heap) ⊎ Q
          wider e (inl c) = inl (omega (arith, pushed-items e.gen))
          wider e (inr q) = inr q

    -- Insert keeps the invariant, on all three branches, of an event whose deadline is no NaN, while
    -- generations have not wrapped.
    pub insert_event-IsIndexed :
        (P : Key → ℕ → Type 0) (ev : Event F) (x : Index F)
        → x.gen + 1 < word
        → fl.is_nan (fl.fadd ev.time ev.ttl) ≡ false
        → IsIndexed z P x
        → IsIndexed z P (insert_event z ev x).1
    unfolding insert_event
    insert_event-IsIndexed P ev x room timed v = elim (Bool-cases (str_eq ev.state expired_state)) [
      | inl gone ↦ rw gone (
          fewer-IsIndexed P P x (record x { entries = erase (key_of ev) x.entries }) refl refl
            (λ k e h. (survives (key_of ev) k x e h, λ q. q)) v)
      | inr alive ↦
          elim (Bool-cases
            (is_new (lookup (key_of ev) x.entries) && leb x.max (length x.entries))) [
              | inl full ↦
                  rw (alive, full)
                    (fewer-IsIndexed P P x (record x { rejected = add64 x.rejected 1 }) refl refl
                      (λ k e h. (h, λ q. q)) v)
              | inr accepted ↦ rw (alive, accepted) (put-IsIndexed P ev x v room timed)
            ]
    ]

    -- Remove keeps it, and settles the entry that it is called for.
    pub remove_due-IsIndexed :
        (P : Key → ℕ → Type 0) (d : Due) (x : Index F)
        → IsIndexed z (λ k g. P k g ⊎ (k ≡ due_key d) × (g ≡ d.gen)) x
        → IsIndexed z P (remove_due d x)
    unfolding remove_due
    remove_due-IsIndexed P d x v = elim (Option-cases (lookup (due_key d) x.entries)) [
      | inl absent ↦
          rw (absent, remove_due)
            (fewer-IsIndexed _ P x x refl refl
              (λ k e h. (h, left_of (λ q. cc (absent, h, ap (λ j. lookup j x.entries) q.0)))) v)
      | inr (e₀, present) ↦ elim (Bool-cases (e₀.gen == d.gen)) [
        | inl same ↦
            rw (present, remove_due, same)
              (fewer-IsIndexed _ P x (record x { entries = erase (due_key d) x.entries }) refl refl
                (λ k e h.
                  (survives (due_key d) k x e h, left_of (λ q. gone (due_key d) k x e h (sym q.0))))
                v)
        | inr other ↦
            rw (present, remove_due, other)
              (fewer-IsIndexed _ P x x refl refl
                (λ k e h. (
                  h,
                  left_of (λ q. differ e₀.gen d.gen other (
                      ap (λ (y : Entry F). y.gen)
                        (some-eq e₀ e (cc (present, h, ap (λ j. lookup j x.entries) q.0)))
                      ∙ q.1)),
                ))
                v)
      ]
    ]

    -- The root of the heap may go once its entry, if there is one, is accounted for by `Q`.
    pub popped-IsIndexed :
        (P Q : Key → ℕ → Type 0) (x : Index F)
        → 0 < length x.heap
        → IsIndexed z P x
        → ((k : Key) (e : Entry F)
            → lookup k x.entries ≡ some e
            → ((get_or x.heap 0 z).gen ≢ e.gen → P k e.gen → Q k e.gen)
              × ((get_or x.heap 0 z).gen ≡ e.gen → Q k e.gen))
        → IsIndexed z Q (popped z x)
    popped-IsIndexed P Q x pos v sub = record {
      heaped =
          let after = pop-Heaped less z (IsKnown x) (item_order x) x.heap v.heaped pos in
          record {
            order = after.order;
            oks = λ i hi.
                let it = after.oks i hi in
                record { timed = it.timed; old = it.old; entry = it.entry };
          };
      gens = v.gens;
      unique = λ g. omega (arith, v.unique g, (pop-items less z x.heap pos).1 (has_gen g));
      covered = λ k e h. elim (Bool-cases ((get_or x.heap 0 z).gen == e.gen)) [
        | inl same ↦ inr ((sub k e h).1 ((==_iff _ _).0 same))
        | inr other ↦ still e.gen other (v.covered k e h) ((sub k e h).0 (differ _ _ other))
      ];
    }
      where
        still :
            (g : ℕ) {A B : Type 0}
            → ((get_or x.heap 0 z).gen == g) ≡ false
            → (0 < count (has_gen g) x.heap) ⊎ A
            → (A → B)
            → (0 < count (has_gen g) (popped z x).heap) ⊎ B
        still g other (inr a) f = inr (f a)
        still g other (inl c) f =
            let root = pop-root less z (IsKnown x) (item_order x) x.heap v.heaped pos in
            inl (
              omega (
                arith,
                (pop-items less z x.heap pos).1 (has_gen g),
                ap one_if (ap (has_gen g) root ∙ other),
              ))

    pub new_index-IsIndexed : (P : Key → ℕ → Type 0) (max : ℕ) → IsIndexed z P (new_index max)
    unfolding new_index lookup
    new_index-IsIndexed P max = record {
      heaped = nil-Heaped less z _ _;
      gens = λ k e h. absurd (ground (arith, h));
      unique = λ g. omega arith;
      covered = λ k e h. absurd (ground (arith, h));
    }
