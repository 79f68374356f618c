-- ===== src/Engine/Subs.antt =====
-- internal/engine/subs.go: publish, Subscribe and Unsubscribe.
use riemann_go.Base.{
  ℕ, ◌≡◌, ◌↔◌, Bool, true, Option, none, some, List, [], ◌∷◌, ◌++◌, ltb, ◌==◌, if◌then◌else◌,
  length, add64, arith,
}
use riemann_go.Base.Float.{Float}
use riemann_go.Base.Assoc.{Eq, Assoc, insert, erase}
use riemann_go.Event.{Event, env}
use riemann_go.Rule.{Vm, bool_of}
use riemann_go.Engine.State.{Subscriber, Subscribers}

pub number_iff : (a b : ℕ) → ((a == b) ≡ true) ↔ (a ≡ b)
number_iff a b = ground arith

instance abbrev pub number_instance : Eq ℕ
number_instance = record { beq = ◌==◌; beq_iff = number_iff }

module _ {F Pr : Type 0} ⦃fl : Float F⦄ ⦃vm : Vm F Pr⦄ where
  -- `prog == nil || prog.Bool(env)`
  unfoldable pub holds : Option Pr → Event F → F → Bool
  unfolding bool_of
  holds none ev now = true
  holds (some prog) ev now = bool_of prog (env ev now none)

  -- One round of publish: the subscriber, and what is added to the count of all.
  unfoldable pub offer_to : ℕ → Event F → F → Subscriber F Pr → Subscriber F Pr × ℕ
  unfolding holds
  offer_to capacity ev now sub =
      if holds sub.prog ev now
      then if ltb (length sub.c) capacity
        then (record sub { c = sub.c ++ ev ∷ [] }, 0)
        else (record sub { dropped = add64 sub.dropped 1 }, 1)
      else (sub, 0)

  unfoldable pub publish_all :
      ℕ → Event F → F → Assoc ℕ (Subscriber F Pr) → ℕ → Assoc ℕ (Subscriber F Pr) × ℕ
  unfolding offer_to
  publish_all capacity ev now [] dropped = ([], dropped)
  publish_all capacity ev now ((k, sub) ∷ m) dropped =
      let (sub', n) = offer_to capacity ev now sub in
      let (m', total) = publish_all capacity ev now m (add64 dropped n) in ((k, sub') ∷ m', total)

  unfoldable pub publish : Event F → F → Subscribers F Pr → Subscribers F Pr
  unfolding publish_all
  publish ev now s =
      let (set, dropped) = publish_all s.capacity ev now s.set s.dropped in
      record s { set = set; dropped = dropped }

  -- The events of which a query holds.
  unfoldable pub select : Option Pr → F → List (Event F) → List (Event F)
  unfolding holds
  select q t [] = []
  select q t (ev ∷ evs) = let rest = select q t evs in if holds q ev t then ev ∷ rest else rest

  -- Subscribe, of a query that compiled, under a number that is not in use.
  unfoldable pub subscribe :
      ℕ
      → Option Pr
      → Bool
      → List (Event F)
      → F
      → Subscribers F Pr
      → List (Event F) × Subscribers F Pr
  unfolding select
  subscribe k prog snapshot events now s = (
    if snapshot then select prog now events else [],
    record s { set = insert k (record { c = []; dropped = 0; prog = prog }) s.set },
  )

  unfoldable pub unsubscribe : ℕ → Subscribers F Pr → Subscribers F Pr
  unsubscribe k s = record s { set = erase k s.set }
