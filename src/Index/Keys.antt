-- ===== src/Index/Keys.antt =====
-- index.go: what holds for the keys of the table after its operations. An insert adds the event's key at
-- most, and the others add none.
use riemann_go.Base.{
  ℕ, zero, suc, ◌≡◌, refl, sym, ◌∙◌, subst, none, some, Bool-cases, Option-cases, inl, inr, if_true,
  if_false, if◌then◌else◌, String, arith, str_eq, leb, length, ◌&&◌, ◌==◌,
}
use riemann_go.Base.Float.{Float}
use riemann_go.Base.Assoc.{Assoc, lookup, insert, erase, lookup-insert, lookup-erase}
use riemann_go.Event.{Event, expired_state}
use riemann_go.Index.{
  Key, Entry, HeapItem, Index, Due, key_eq, key_eq_iff, key_instance, key_of, due_key, is_stale,
  peek, popped, is_new, put, insert_event, remove_due, due_loop, pop_due, lookup_event, live,
}

module _ {F : Type 0} ⦃fl : Float F⦄ (P : Key → Type 0) where
  unfoldable pub AllKeys : Assoc Key (Entry F) → Type 0
  AllKeys m = (k : Key) (e : Entry F) → lookup k m ≡ some e → P k

  erase-AllKeys : (k : Key) (m : Assoc Key (Entry F)) → AllKeys m → AllKeys (erase k m)
  unfolding AllKeys
  erase-AllKeys k m h j e q = elim (Bool-cases (key_eq k j)) [
    | inl s ↦
        let gone : none ≡ some e = sym (lookup-erase k j m ∙ if_true _ _ s) ∙ q in
        absurd (ground (arith, gone))
    | inr s ↦ h j e (sym (lookup-erase k j m ∙ if_false _ _ s) ∙ q)
  ]

  insert-AllKeys :
      (k : Key) (v : Entry F) (m : Assoc Key (Entry F)) → P k → AllKeys m → AllKeys (insert k v m)
  unfolding AllKeys
  insert-AllKeys k v m p h j e q = elim (Bool-cases (key_eq k j)) [
    | inl s ↦ subst P ((key_eq_iff k j).0 s) p
    | inr s ↦ h j e (sym (lookup-insert k j v m ∙ if_false _ _ s) ∙ q)
  ]

  pub insert_event-AllKeys :
      (z : HeapItem F) (ev : Event F) (x : Index F)
      → P (key_of ev)
      → AllKeys x.entries
      → AllKeys (insert_event z ev x).1.entries
  unfolding insert_event put
  insert_event-AllKeys z ev x p h = elim (Bool-cases (str_eq ev.state expired_state)) [
    | inl s ↦ rw s (erase-AllKeys (key_of ev) x.entries h)
    | inr s ↦
        elim (Bool-cases (is_new (lookup (key_of ev) x.entries) && leb x.max (length x.entries))) [
          | inl f ↦ rw (s, f) h
          | inr f ↦ rw (s, f) (insert-AllKeys (key_of ev) _ x.entries p h)
        ]
  ]

  pub remove_due-AllKeys :
      (d : Due) (x : Index F) → AllKeys x.entries → AllKeys (remove_due d x).entries
  unfolding remove_due
  remove_due-AllKeys d x h = elim (Option-cases (lookup (due_key d) x.entries)) [
    | inl n ↦ rw (n, remove_due) h
    | inr (e, s) ↦ elim (Bool-cases (e.gen == d.gen)) [
      | inl g ↦ rw (s, remove_due, g) (erase-AllKeys (due_key d) x.entries h)
      | inr g ↦ rw (s, remove_due, g) h
    ]
  ]

module _ {F : Type 0} ⦃fl : Float F⦄ where
  due_loop-entries :
      (z : HeapItem F) (now : F) (fuel : ℕ) (x : Index F)
      → (due_loop z now fuel x).1.entries ≡ x.entries
  unfolding due_loop
  due_loop-entries z now zero x = refl
  due_loop-entries z now (suc fuel) x = elim (Option-cases (peek x.heap)) [
    | inl n ↦ rw (n, due_loop) refl
    | inr (it, s) ↦ elim (Bool-cases (fl.flt it.deadline now)) [
      | inr d ↦ rw (s, due_loop, d) refl
      | inl d ↦ elim (Bool-cases (is_stale it (lookup it.k x.entries))) [
        | inl t ↦ rw (s, due_loop, d, t) (due_loop-entries z now fuel (popped z x))
        | inr t ↦ rw (s, due_loop, d, t) (due_loop-entries z now fuel (popped z x))
      ]
    ]
  ]

  pub pop_due-entries :
      (z : HeapItem F) (now : F) (x : Index F) → (pop_due z now x).1.entries ≡ x.entries
  unfolding pop_due
  pop_due-entries z now x = due_loop-entries z now (suc (length x.heap)) x

  pub lookup_event-of :
      (host service : String) (now : F) (x : Index F) (e : Entry F)
      → lookup (record { host = host; service = service }) x.entries ≡ some e
      → lookup_event host service now x ≡ (if fl.flt e.deadline now then none else some e.ev)
  unfolding lookup_event live
  lookup_event-of host service now x e h = rw h refl
