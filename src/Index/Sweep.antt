-- ===== src/Index/Sweep.antt =====
-- A whole expiry: PopDue and then Remove of each Due.
use riemann_go.Base.{
  some-eq, ℕ, ◌≡◌, ◌⊎◌, refl, sym, ap, Bool, true, false, ◌&&◌, Option, none, some, List, [], ◌∷◌,
  arith, ◌==◌, if◌then◌else◌, Bool-cases, Option-cases, inl, inr, All, ==_iff,
}
use riemann_go.Base.Float.{Float}
use riemann_go.Base.Assoc.{lookup, lookup-erase}
use riemann_go.Index.{
  Index, HeapItem, Entry, Key, Due, key_eq, key_eq_iff, key_instance, due_key, pop_due, remove_due,
}
use riemann_go.Index.Inv.{IsIndexed, fewer-IsIndexed, remove_due-IsIndexed}
use riemann_go.Index.Expiry.{InDues, IsPast, Joined, NothingOut, pop_due_lem}

and_left : (a b : Bool) → (a && b) ≡ true → a ≡ true
and_left a b h = ground arith

module _ {F : Type 0} ⦃fl : Float F⦄ where
  -- The loop of fireDue over the Dues, without its dispatches.
  unfoldable pub remove_all : List Due → Index F → Index F
  remove_all [] x = x
  remove_all (d ∷ ds) x = remove_all ds (remove_due d x)

  -- A Due takes away the entry of its key and generation, and no other.
  lookup-remove_due :
      (d : Due) (x : Index F) (k : Key) (e : Entry F)
      → lookup k x.entries ≡ some e
      → lookup k (remove_due d x).entries
        ≡ (if key_eq (due_key d) k && (e.gen == d.gen) then none else some e)
  unfolding remove_due
  lookup-remove_due d x k e h = elim (Bool-cases (key_eq (due_key d) k)) [
    | inl same ↦
        let q = (key_eq_iff (due_key d) k).0 same in
        let there : lookup (due_key d) x.entries ≡ some e = rw q h in
        rw (there, remove_due, same) (ground (arith, lookup-erase (due_key d) k x.entries))
    | inr other ↦ elim (Option-cases (lookup (due_key d) x.entries)) [
      | inl absent ↦ rw (absent, remove_due, other) h
      | inr (e₀, there) ↦
          rw (there, remove_due, other) (ground (arith, lookup-erase (due_key d) k x.entries))
    ]
  ]

  lookup-remove_due-none :
      (d : Due) (x : Index F) (k : Key)
      → lookup k x.entries ≡ none
      → lookup k (remove_due d x).entries ≡ none
  unfolding remove_due
  lookup-remove_due-none d x k h = elim (Option-cases (lookup (due_key d) x.entries)) [
    | inl absent ↦ rw (absent, remove_due) h
    | inr (e₀, there) ↦
        rw (there, remove_due) (ground (arith, lookup-erase (due_key d) k x.entries))
  ]

  remove_all-none :
      (ds : List Due) (x : Index F) (k : Key)
      → lookup k x.entries ≡ none
      → lookup k (remove_all ds x).entries ≡ none
  unfolding remove_all
  remove_all-none [] x k h = h
  remove_all-none (d ∷ ds) x k h =
      remove_all-none ds (remove_due d x) k (lookup-remove_due-none d x k h)

  -- An entry with a Due in the list is gone,
  remove_all_in :
      (ds : List Due) (x : Index F) (k : Key) (e : Entry F)
      → lookup k x.entries ≡ some e
      → InDues ds k e.gen
      → lookup k (remove_all ds x).entries ≡ none
  unfolding remove_all
  remove_all_in [] x k e h m = absurd m
  remove_all_in (d ∷ ds) x k e h m = elim (Bool-cases (key_eq (due_key d) k && (e.gen == d.gen))) [
    | inl hit ↦ remove_all-none ds (remove_due d x) k (rw hit at (lookup-remove_due d x k e h))
    | inr miss ↦
        remove_all_in ds (remove_due d x) k e (rw miss at (lookup-remove_due d x k e h))
          (rest m miss)
  ]
    where
      rest :
          (k ≡ due_key d) × (e.gen ≡ d.gen) ⊎ InDues ds k e.gen
          → (key_eq (due_key d) k && (e.gen == d.gen)) ≡ false
          → InDues ds k e.gen
      rest (inr m) miss = m
      rest (inl p) miss =
          let a = (key_eq_iff (due_key d) k).1 (sym p.0) in
          let b = (==_iff e.gen d.gen).1 p.1 in cc (rw (a, b) at miss)

  -- and one with none stays.
  remove_all_out :
      (ds : List Due) (x : Index F) (k : Key) (e : Entry F)
      → lookup k x.entries ≡ some e
      → (InDues ds k e.gen → ⊥)
      → lookup k (remove_all ds x).entries ≡ some e
  unfolding remove_all
  remove_all_out [] x k e h m = h
  remove_all_out (d ∷ ds) x k e h m = elim (Bool-cases (key_eq (due_key d) k && (e.gen == d.gen))) [
    | inl hit ↦ absurd (m (inl (matched hit)))
    | inr miss ↦
        remove_all_out ds (remove_due d x) k e (rw miss at (lookup-remove_due d x k e h))
          (λ r. m (inr r))
  ]
    where
      matched :
          (key_eq (due_key d) k && (e.gen == d.gen)) ≡ true → (k ≡ due_key d) × (e.gen ≡ d.gen)
      matched hit = (sym ((key_eq_iff (due_key d) k).0 (and_left _ _ hit)), ground arith)

module _ {F : Type 0} ⦃fl : Float F⦄ (z : HeapItem F) (now : F) where
  remove_all-IsIndexed :
      (P : Key → ℕ → Type 0) (ds : List Due) (x : Index F)
      → IsIndexed z (Joined z now P ds) x
      → IsIndexed z P (remove_all ds x)
  unfolding remove_all
  remove_all-IsIndexed P [] x v =
      fewer-IsIndexed z (Joined z now P []) P x x refl refl (λ k e h. (h, drop)) v
    where
      drop : {A : Type 0} → A ⊎ ⊥ → A
      drop (inl a) = a
      drop (inr b) = absurd b
  remove_all-IsIndexed P (d ∷ ds) x v = remove_all-IsIndexed P ds (remove_due d x) (
      remove_due-IsIndexed z (Joined z now P ds) d x
        (fewer-IsIndexed z (Joined z now P (d ∷ ds)) _ x x refl refl (λ k e h. (h, regroup)) v))
    where
      regroup : {A B C : Type 0} → A ⊎ B ⊎ C → (A ⊎ C) ⊎ B
      regroup (inl a) = inl (inl a)
      regroup (inr (inl b)) = inr b
      regroup (inr (inr c)) = inl (inr c)

  past_of_in :
      (ds : List Due) (x : Index F) (k : Key) (e : Entry F)
      → All (IsPast now x) ds
      → lookup k x.entries ≡ some e
      → InDues ds k e.gen
      → fl.flt e.deadline now ≡ true
  past_of_in [] x k e p h m = absurd m
  past_of_in (d ∷ ds) x k e p h (inr m) = past_of_in ds x k e p.1 h m
  past_of_in (d ∷ ds) x k e p h (inl q) =
      let (e', h', g, past) = p.0 in
      let same = some-eq e e' (cc (h, h', ap (λ j. lookup j x.entries) q.0)) in rw same past

  abbrev pub live_entry : Option (Entry F) → Option (Entry F)
  live_entry none = none
  live_entry (some e) = if fl.flt e.deadline now then none else some e

  abbrev pub expire : Index F → Index F
  expire x = remove_all (pop_due z now x).0 (pop_due z now x).1

  -- Expiry at `now` removes the entries whose deadline lies before `now` and leaves every other entry
  -- as it was, and the table and the heap agree again when it is over.
  pub expire_lem :
      (x : Index F)
      → IsIndexed z NothingOut x
      → ((k : Key) → lookup k (expire x).entries ≡ live_entry (lookup k x.entries))
        × IsIndexed z NothingOut (expire x)
  expire_lem x v =
      let (past, complete, r) = pop_due_lem z now x v in
      (
        λ k. at k (lookup k x.entries) refl past complete r.same_table,
        remove_all-IsIndexed NothingOut (pop_due z now x).0 (pop_due z now x).1 r.indexed,
      )
    where
      at :
          (k : Key) (o : Option (Entry F))
          → lookup k x.entries ≡ o
          → All (IsPast now x) (pop_due z now x).0
          → ((k : Key) (e : Entry F)
              → lookup k x.entries ≡ some e
              → fl.flt e.deadline now ≡ true
              → InDues (pop_due z now x).0 k e.gen)
          → (pop_due z now x).1.entries ≡ x.entries
          → lookup k (expire x).entries ≡ live_entry o
      at k none h past complete same =
          remove_all-none (pop_due z now x).0 (pop_due z now x).1 k (rw same h)
      at k (some e) h past complete same = elim (Bool-cases (fl.flt e.deadline now)) [
        | inl due ↦ rw due (
            remove_all_in (pop_due z now x).0 (pop_due z now x).1 k e (rw same h)
              (complete k e h due))
        | inr live ↦ rw live (
            remove_all_out (pop_due z now x).0 (pop_due z now x).1 k e (rw same h)
              (λ m. cc (past_of_in (pop_due z now x).0 x k e past h m, live)))
      ]
