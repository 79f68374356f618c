-- ===== src/Index.antt =====
-- internal/index/index.go: a partition's table of the last event for each (host, service), with a
-- heap of deadlines. Each function is one critical section of the mutex. `wake` is the channel of
-- capacity one: true when a signal waits in it. Counters and generations are 64-bit and wrap.
pub mod Table
pub mod Inv
pub mod Expiry
pub mod Sweep
pub mod Deadline
pub mod Stuck
pub mod Keys
use riemann_go.Base.{
  ℕ, zero, suc, ◌+◌, ◌%◌, ◌≡◌, ◌↔◌, Bool, true, false, ◌&&◌, not, Option, none, some, List, [], ◌∷◌,
  String, str_eq, eq_iff, ltb, leb, ◌==◌, if◌then◌else◌, length, add64, arith,
}
use riemann_go.Base.Float.{Float}
use riemann_go.Base.Assoc.{Eq, Assoc, lookup, insert, erase}
use riemann_go.Event.{Event, expired_state}
use riemann_go.Heap

pub record Key : Type 0 where
  pub host : String
  pub service : String

abbrev pub key_eq : Key → Key → Bool
key_eq a b = str_eq a.host b.host && str_eq a.service b.service

pub key_eq_iff : (a b : Key) → (key_eq a b ≡ true) ↔ (a ≡ b)
key_eq_iff a b = ground (arith, eq_iff a.host b.host, eq_iff a.service b.service)

instance abbrev pub key_instance : Eq Key
key_instance = record { beq = key_eq; beq_iff = key_eq_iff }

pub record Entry (F : Type 0) : Type 0 where
  pub ev : Event F
  pub deadline : F
  pub gen : ℕ

pub record HeapItem (F : Type 0) : Type 0 where
  pub deadline : F
  pub gen : ℕ
  pub k : Key

pub record Index (F : Type 0) : Type 0 where
  pub entries : Assoc Key (Entry F)
  pub heap : List (HeapItem F)
  pub gen : ℕ
  pub max : ℕ
  pub rejected : ℕ
  pub wake : Bool

pub record Due : Type 0 where
  pub host : String
  pub service : String
  pub gen : ℕ

abbrev pub key_of : {F : Type 0} → Event F → Key
key_of ev = record { host = ev.host; service = ev.service }

abbrev pub due_key : Due → Key
due_key d = record { host = d.host; service = d.service }

module _ {F : Type 0} ⦃fl : Float F⦄ where
  -- expHeap.Less
  unfoldable pub less : HeapItem F → HeapItem F → Bool
  less a b = fl.flt a.deadline b.deadline

  -- the zero heapItem
  abbrev pub zero_item : F → HeapItem F
  zero_item z = record { deadline = z; gen = 0; k = record { host = ""; service = "" } }

  unfoldable pub new_index : ℕ → Index F
  new_index max = record { entries = []; heap = []; gen = 0; max = max; rejected = 0; wake = false }

  abbrev pub new_entry : Event F → Index F → Entry F
  new_entry ev x = record { ev = ev; deadline = fl.fadd ev.time ev.ttl; gen = add64 x.gen 1 }

  abbrev pub item_of : Key → Entry F → HeapItem F
  item_of k e = record { deadline = e.deadline; gen = e.gen; k = k }

  -- The part of Insert past its two early returns.
  unfoldable pub put : HeapItem F → Event F → Index F → Index F
  put z ev x =
      let e = new_entry ev x in
      record x {
        gen = e.gen;
        entries = insert (key_of ev) e x.entries;
        heap = Heap.push less z (item_of (key_of ev) e) x.heap;
        wake = true;
      }

  abbrev pub is_new : Option (Entry F) → Bool
  is_new none = true
  is_new (some e) = false

  unfoldable pub insert_event : HeapItem F → Event F → Index F → Bool × Index F
  unfolding put
  insert_event z ev x =
      if str_eq ev.state expired_state
      then (true, record x { entries = erase (key_of ev) x.entries })
      else if is_new (lookup (key_of ev) x.entries) && leb x.max (length x.entries)
      then (false, record x { rejected = add64 x.rejected 1 })
      else (true, put z ev x)

  live : F → Option (Entry F) → Option (Event F)
  live now none = none
  live now (some e) = if fl.flt e.deadline now then none else some e.ev

  unfoldable pub lookup_event : String → String → F → Index F → Option (Event F)
  unfolding live
  lookup_event host service now x =
      live now (lookup (record { host = host; service = service }) x.entries)

  snapshot_of : F → Assoc Key (Entry F) → List (Event F)
  snapshot_of now [] = []
  snapshot_of now ((k, e) ∷ m) =
      let rest = snapshot_of now m in if fl.flt e.deadline now then rest else e.ev ∷ rest

  unfoldable pub snapshot : F → Index F → List (Event F)
  unfolding snapshot_of
  snapshot now x = snapshot_of now x.entries

  unfoldable pub len : Index F → ℕ
  len x = length x.entries

  -- `!live || e.gen != it.gen`
  unfoldable pub is_stale : HeapItem F → Option (Entry F) → Bool
  is_stale it none = true
  is_stale it (some e) = not (e.gen == it.gen)

  abbrev pub popped : HeapItem F → Index F → Index F
  popped z x = record x { heap = (Heap.pop less z x.heap).1 }

  abbrev pub peek : List (HeapItem F) → Option (HeapItem F)
  peek [] = none
  peek (it ∷ h) = some it

  -- Each round but the last pops one item, so a round more than there are items is enough.
  pub next_loop : HeapItem F → ℕ → Index F → Option F × Index F
  next_loop z zero x = (none, x)
  next_loop z (suc fuel) x = elim (peek x.heap) [
    | none ↦ (none, x)
    | some it ↦ elim (is_stale it (lookup it.k x.entries)) [
      | true ↦ next_loop z fuel (popped z x)
      | false ↦ (some it.deadline, x)
    ]
  ]

  unfoldable pub next_deadline : HeapItem F → Index F → Option F × Index F
  unfolding next_loop is_stale
  next_deadline z x = next_loop z (suc (length x.heap)) x

  abbrev pub due_of : HeapItem F → Due
  due_of it = record { host = it.k.host; service = it.k.service; gen = it.gen }

  -- `due` is appended to; here the rounds that follow stand behind it.
  pub due_loop : HeapItem F → F → ℕ → Index F → List Due × Index F
  due_loop z now zero x = ([], x)
  due_loop z now (suc fuel) x = elim (peek x.heap) [
    | none ↦ ([], x)
    | some it ↦ elim (fl.flt it.deadline now) [
      | false ↦ ([], x)
      | true ↦
          let rest = due_loop z now fuel (popped z x) in
          elim (is_stale it (lookup it.k x.entries)) [
            | true ↦ rest
            | false ↦ (due_of it ∷ rest.0, rest.1)
          ]
    ]
  ]

  unfoldable pub pop_due : HeapItem F → F → Index F → List Due × Index F
  unfolding due_loop is_stale
  pop_due z now x = due_loop z now (suc (length x.heap)) x

  unfoldable pub remove_due : Due → Index F → Index F
  remove_due d x = elim (lookup (due_key d) x.entries) [
    | none ↦ x
    | some e ↦ if e.gen == d.gen then record x { entries = erase (due_key d) x.entries } else x
  ]
