-- ===== src/Engine/Running.antt =====
-- PutRule and DeleteRule (engine.go): what the loops run, and the versions of the rules.
use riemann_go.Base.{
  ◌≡◌, refl, ap, ◌∙◌, Option, none, some, List, [], ◌∷◌, map, String, str_eq, if◌then◌else◌, arith,
  Bool-cases, Option-cases, inl, inr, All,
}
use riemann_go.Base.Float.{Float}
use riemann_go.Base.Assoc.{string_eq, Assoc, lookup, insert, erase, lookup-insert, lookup-erase}
use riemann_go.Event.{Result, ok, err}
use riemann_go.Rule.{Instance, Compiled, new_instance}
use riemann_go.Engine.State.{Loop, Engine}
use riemann_go.Engine.Loops.{install, uninstall, is_global}
use riemann_go.Engine.Store.{for_loops, store_rule, put_rule, delete_rule, is_same_hash}
use riemann_go.Engine.Instances.{IsAscending}
use riemann_go.Engine.Installed.{
  find_rule, belongs, install-IsAscending, find_rule-install, find_rule-uninstall,
  uninstall-IsAscending,
}

module _ {F Pr : Type 0} ⦃fl : Float F⦄ where
  abbrev pub rule_of : Option (Instance F Pr) → Option (Compiled F Pr)
  rule_of none = none
  rule_of (some i) = some i.c

  -- The stored rule, where it belongs to the loop.
  abbrev pub rule_for : Loop F Pr → Option (Compiled F Pr) → Option (Compiled F Pr)
  rule_for l none = none
  rule_for l (some c) = if belongs c l then some c else none

  -- The loop runs the rules of the store that belong to it, and no others, in ascending order.
  pub record IsInSync (store : Assoc String (Compiled F Pr)) (l : Loop F Pr) : Type 0 where
    pub ascending : IsAscending l.rules
    pub runs : (id : String) → rule_of (find_rule id l.rules) ≡ rule_for l (lookup id store)

  pub record IsRunning (e : Engine F Pr) : Type 0 where
    pub shards : All (IsInSync e.rules) e.shards
    pub global : IsInSync e.rules e.global

  All-map :
      (P Q : Loop F Pr → Type 0) (f : Loop F Pr → Loop F Pr) (ls : List (Loop F Pr))
      → ((l : Loop F Pr) → P l → Q (f l))
      → All P ls
      → All Q (map f ls)
  All-map P Q f [] step h = tt
  All-map P Q f (l ∷ ls) step h = (step l h.0, All-map P Q f ls step h.1)

  belongs-install : (c d : Compiled F Pr) (l : Loop F Pr) → belongs c (install d l) ≡ belongs c l
  unfolding install belongs
  belongs-install c d l = ground arith

  belongs-uninstall :
      (c : Compiled F Pr) (id : String) (l : Loop F Pr) → belongs c (uninstall id l) ≡ belongs c l
  unfolding uninstall belongs is_global
  belongs-uninstall c id l = refl

  rule_for-install :
      (d : Compiled F Pr) (l : Loop F Pr) (o : Option (Compiled F Pr))
      → rule_for (install d l) o ≡ rule_for l o
  rule_for-install d l none = refl
  rule_for-install d l (some c) = rw (belongs-install c d l)

  rule_for-uninstall :
      (id : String) (l : Loop F Pr) (o : Option (Compiled F Pr))
      → rule_for (uninstall id l) o ≡ rule_for l o
  rule_for-uninstall id l none = refl
  rule_for-uninstall id l (some c) = rw (belongs-uninstall c id l)

  install-IsInSync :
      (store : Assoc String (Compiled F Pr)) (c : Compiled F Pr) (l : Loop F Pr)
      → IsInSync store l
      → IsInSync (insert c.id c store) (install c l)
  unfolding new_instance
  install-IsInSync store c l h = record {
    ascending = install-IsAscending c l h.ascending;
    runs = λ id.
        ap rule_of (find_rule-install id c l h.ascending) ∙ elim (Bool-cases (str_eq c.id id)) [
          | inl e ↦ ground (
            arith,
            e,
            lookup-insert c.id id c store,
            rule_for-install c l (lookup id (insert c.id c store)),
          )
          | inr e ↦ ground (
            arith,
            e,
            lookup-insert c.id id c store,
            h.runs id,
            rule_for-install c l (lookup id (insert c.id c store)),
          )
        ];
  }

  uninstall-IsInSync :
      (store : Assoc String (Compiled F Pr)) (j : String) (l : Loop F Pr)
      → IsInSync store l
      → IsInSync (erase j store) (uninstall j l)
  uninstall-IsInSync store j l h = record {
    ascending = uninstall-IsAscending j l h.ascending;
    runs = λ id.
        ap rule_of (find_rule-uninstall id j l h.ascending)
        ∙ ground (
          arith,
          lookup-erase j id store,
          h.runs id,
          rule_for-uninstall j l (lookup id (erase j store)),
        );
  }

  -- Every loop goes on running exactly the stored rules that belong to it, in ascending order of their
  -- ids, after PutRule: of a rule that is new, that replaces another, also one of the other kind of
  -- loop, that is stored already, or that does not compile.
  pub put_rule-IsRunning :
      {E : Type 0} (parsed : Result E (Compiled F Pr)) (e : Engine F Pr)
      → IsRunning e
      → IsRunning (put_rule parsed e).1
  unfolding put_rule store_rule for_loops
  put_rule-IsRunning (err x) e h = h
  put_rule-IsRunning (ok c) e h = elim (Bool-cases (is_same_hash c (lookup c.id e.rules))) [
    | inl s ↦ rw s h
    | inr s ↦
        let stored = (store_rule c e).0 in
        rw s record {
          shards =
              All-map (IsInSync e.rules) (IsInSync (insert c.id stored e.rules)) (install stored)
                e.shards (install-IsInSync e.rules stored) h.shards;
          global = install-IsInSync e.rules stored e.global h.global;
        }
  ]

  -- Every loop goes on running exactly the stored rules that belong to it, in ascending order of their
  -- ids, after DeleteRule, whether or not the id is known.
  pub delete_rule-IsRunning :
      (id : String) (e : Engine F Pr) → IsRunning e → IsRunning (delete_rule id e).1
  unfolding delete_rule for_loops
  delete_rule-IsRunning id e h = elim (Option-cases (lookup id e.rules)) [
    | inl n ↦ rw (n, delete_rule) h
    | inr (c, s) ↦
        rw (s, delete_rule)
          record {
            shards =
                All-map (IsInSync e.rules) (IsInSync (erase id e.rules)) (uninstall id) e.shards
                  (uninstall-IsInSync e.rules id) h.shards;
            global = uninstall-IsInSync e.rules id e.global h.global;
          }
  ]
