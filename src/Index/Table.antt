-- ===== src/Index/Table.antt =====
-- What Insert, Remove and Lookup do to the table, as its readers see it.
use riemann_go.Base.{
  ◌≤◌, ◌≡◌, Bool, ◌&&◌, ◌||◌, not, none, some, String, str_eq, leb, arith, if◌then◌else◌, length,
  add64, Option-cases, inl, inr,
}
use riemann_go.Base.Float.{Float}
use riemann_go.Base.Assoc.{
  lookup, lookup-insert, lookup-erase, length-insert_new, length-insert_old, length-erase-le,
}
use riemann_go.Event.{Event, expired_state}
use riemann_go.Index.{
  Index, HeapItem, Key, key_eq, key_instance, key_of, new_entry, is_new, insert_event, lookup_event,
  len,
}

module _ {F : Type 0} ⦃fl : Float F⦄ (z : HeapItem F) where
  abbrev pub is_refused : Event F → Index F → Bool
  is_refused ev x = is_new (lookup (key_of ev) x.entries) && leb x.max (length x.entries)

  -- The entry of each identity after an Insert.
  pub entries-insert_event :
      (ev : Event F) (x : Index F) (j : Key)
      → lookup j (insert_event z ev x).1.entries ≡ (
          if str_eq ev.state expired_state
          then (if key_eq (key_of ev) j then none else lookup j x.entries)
          else if is_refused ev x
          then lookup j x.entries
          else if key_eq (key_of ev) j
          then some (new_entry ev x)
          else lookup j x.entries)
  unfolding insert_event
  entries-insert_event ev x j = ground (
    arith,
    lookup-insert (key_of ev) j (new_entry ev x) x.entries,
    lookup-erase (key_of ev) j x.entries,
  )

  -- A reader sees an accepted event at once and until its deadline has passed, an event in the state
  -- expired deletes the entry of its identity, a refused one changes nothing, and no Insert changes
  -- what a reader sees of another identity.
  pub lookup_event-insert_event :
      (ev : Event F) (x : Index F) (host service : String) (now : F)
      → lookup_event host service now (insert_event z ev x).1 ≡ (
          if key_eq (key_of ev) (record { host = host; service = service })
          then (if str_eq ev.state expired_state
              then none
              else if is_refused ev x
              then lookup_event host service now x
              else if fl.flt (fl.fadd ev.time ev.ttl) now
              then none
              else some ev)
          else lookup_event host service now x)
  unfolding lookup_event
  lookup_event-insert_event ev x host service now =
      ground (arith, entries-insert_event ev x (record { host = host; service = service }))

  -- Insert answers false exactly for an event that is not a deletion, of an identity that the table
  -- lacks, in a table at its bound; the refusal is counted, and the table stays within its bound.
  pub insert_event_bound :
      (ev : Event F) (x : Index F)
      → len x ≤ x.max
      → (len (insert_event z ev x).1 ≤ x.max)
        × ((insert_event z ev x).0 ≡ (str_eq ev.state expired_state || not (is_refused ev x)))
        × ((insert_event z ev x).1.rejected
            ≡ (if (insert_event z ev x).0 then x.rejected else add64 x.rejected 1))
        × ((insert_event z ev x).1.max ≡ x.max)
  unfolding insert_event len
  insert_event_bound ev x h =
      let grown = length-insert_new (key_of ev) (new_entry ev x) x.entries in
      let less = length-erase-le (key_of ev) x.entries in
      elim (Option-cases (lookup (key_of ev) x.entries)) [
        | inl e ↦ ground (arith, grown e, less)
        | inr (w, e) ↦
            ground (arith, less, length-insert_old (key_of ev) (new_entry ev x) w x.entries e)
      ]
