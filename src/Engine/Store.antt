-- ===== src/Engine/Store.antt =====
-- internal/engine/engine.go: PutRule, DeleteRule, Rules and Rule, the rule store, and Admit.
-- The result of rule.Parse is an argument of put_rule. A compiled rule stands for its document: the
-- document holds the version that the rule holds.
use riemann_go.Base.{
  ℕ, suc, ◌+◌, Bool, true, false, Option, none, some, List, [], ◌∷◌, ◌++◌, map, String, str_eq,
  if◌then◌else◌, length, add64, get_or, set,
}
use riemann_go.Base.Float.{Float}
use riemann_go.Base.Assoc.{string_eq, Assoc, lookup, insert, erase}
use riemann_go.Event.{Event, Result, ok, err, sort_strings, default_to}
use riemann_go.Rule.{Compiled}
use riemann_go.Engine.State.{Loop, Engine}
use riemann_go.Engine.Routing.{shard_for}
use riemann_go.Engine.Loops.{install, uninstall, try_send}

module _ {F Pr : Type 0} ⦃fl : Float F⦄ where
  -- allLoops, with a change of each in turn
  unfoldable pub for_loops : (Loop F Pr → Loop F Pr) → Engine F Pr → Engine F Pr
  for_loops change e = record e { shards = map change e.shards; global = change e.global }

  unfoldable pub is_same_hash : Compiled F Pr → Option (Compiled F Pr) → Bool
  is_same_hash c none = false
  is_same_hash c (some x) = str_eq x.hash c.hash

  -- PutRule past its early returns.
  unfoldable pub store_rule : Compiled F Pr → Engine F Pr → Compiled F Pr × Engine F Pr
  unfolding for_loops
  store_rule c e =
      let v = add64 (default_to 0 (lookup c.id e.last_version)) 1 in
      let c' = record c { version = v } in
      (
        c',
        for_loops (install c') (record e {
          last_version = insert c.id v e.last_version;
          rules = insert c.id c' e.rules;
        }),
      )

  -- The document, whether it was created, and the engine.
  unfoldable pub put_rule :
      {E : Type 0}
      → Result E (Compiled F Pr)
      → Engine F Pr
      → Result E (Compiled F Pr × Bool) × Engine F Pr
  unfolding store_rule is_same_hash
  put_rule (err x) e = (err x, e)
  put_rule (ok c) e =
      let (stored, e') = store_rule c e in
      if is_same_hash c (lookup c.id e.rules)
      then (ok (default_to c (lookup c.id e.rules), false), e)
      else (ok (stored, true), e')

  unfoldable pub delete_rule : String → Engine F Pr → Bool × Engine F Pr
  unfolding for_loops
  delete_rule id e = elim (lookup id e.rules) [
    | none ↦ (false, e)
    | some c ↦ (true, for_loops (uninstall id) (record e { rules = erase id e.rules }))
  ]

  -- Rule; none is ErrNotFound.
  unfoldable pub rule : String → Engine F Pr → Option (Compiled F Pr)
  rule id e = lookup id e.rules

  rules_of : List String → Assoc String (Compiled F Pr) → List (Compiled F Pr)
  rules_of [] m = []
  rules_of (id ∷ ids) m = elim (lookup id m) [ none ↦ rules_of ids m | some c ↦ c ∷ rules_of ids m ]

  unfoldable pub rules : Engine F Pr → List (Compiled F Pr)
  unfolding rules_of
  rules e = rules_of (sort_strings (map (λ kv. kv.0) e.rules)) e.rules

  -- The loop of Admit, past `accepted` events. `wait i e` is what happens while Admit waits for room in
  -- the inbox of shard i: none if the deadline passes first, else the engine once the inbox has room.
  unfoldable pub admit_from :
      (ℕ → Engine F Pr → Option (Engine F Pr))
      → List (Event F)
      → ℕ
      → Engine F Pr
      → (ℕ × ℕ) × Engine F Pr
  unfolding try_send
  admit_from wait [] accepted e =
      ((accepted, 0), record e { ingest_accepted = add64 e.ingest_accepted accepted })
  admit_from wait (ev ∷ evs) accepted e =
      let i = shard_for (length e.shards) ev.host in
      let l = get_or e.shards i e.global in
      let stalled = record e {
        shards = set e.shards i (record l { stalled = add64 l.stalled 1 });
      } in
      elim (try_send ev l) [
        | some l' ↦ admit_from wait evs (accepted + 1) (record e { shards = set e.shards i l' })
        | none ↦ elim (wait i stalled) [
          | some e' ↦
              let l' = get_or e'.shards i e'.global in
              admit_from wait evs (accepted + 1)
                (record e' { shards = set e'.shards i (record l' { inbox = l'.inbox ++ ev ∷ [] }) })
          | none ↦
              let rejected = suc (length evs) in
              let l' = get_or stalled.shards i stalled.global in
              (
                (accepted, rejected),
                record stalled {
                  shards =
                      set stalled.shards i (record l' { rejected = add64 l'.rejected rejected });
                  ingest_accepted = add64 stalled.ingest_accepted accepted;
                  ingest_rejected = add64 stalled.ingest_rejected rejected;
                },
              )
        ]
      ]

  unfoldable pub admit :
      (ℕ → Engine F Pr → Option (Engine F Pr))
      → List (Event F)
      → Engine F Pr
      → (ℕ × ℕ) × Engine F Pr
  unfolding admit_from
  admit wait evs e = admit_from wait evs 0 e
