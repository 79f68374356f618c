-- ===== src/Engine/Admission.antt =====
-- Admit (engine.go): what a request is told, and what the inboxes get.
use native.Mathlib.Nat.{mod-lt}
use riemann_go.Base.{
  String, ℕ, suc, ◌+◌, ◌-◌, ◌≤◌, ◌<◌, ◌≡◌, refl, ap, sym, ◌∙◌, Bool, Option, none, some, List, [],
  ◌∷◌, ◌++◌, ◌==◌, ltb, if_true, arith, Bool-cases, Option-cases, inl, inr, some-eq, ==_iff, length,
  get_or, set, take, keep, keep-append, length-set, get_or-set, append-nil, append_assoc, add64,
}
use riemann_go.Base.Float.{Float}
use riemann_go.Event.{Event}
use riemann_go.Engine.State.{Loop, Engine}
use riemann_go.Engine.Routing.{shard_for}
use riemann_go.Engine.Loops.{try_send}
use riemann_go.Engine.Store.{admit, admit_from}

pub shard_for-lt : (n : ℕ) (host : String) → 0 < n → shard_for n host < n
unfolding shard_for
shard_for-lt n host h = mod-lt _ h

abbrev pub goes_to : {F : Type 0} → ℕ → ℕ → Event F → Bool
goes_to shards j ev = shard_for shards ev.host == j

take-more :
    (a n : ℕ) {A : Type 0} (ev : A) (evs : List A)
    → n + 1 ≤ a
    → take (a - n) (ev ∷ evs) ≡ ev ∷ take (a - (n + 1)) evs
take-more a n ev evs h = let one : a - n ≡ suc (a - (n + 1)) = omega arith in rw one

module _ {F Pr : Type 0} ⦃fl : Float F⦄ where
  admit_from-total :
      (wait : ℕ → Engine F Pr → Option (Engine F Pr)) (evs : List (Event F)) (n : ℕ)
      (e : Engine F Pr)
      → let counts = (admit_from wait evs n e).0 in counts.0 + counts.1 ≡ n + length evs
  unfolding admit_from
  admit_from-total wait [] n e = omega arith
  admit_from-total wait (ev ∷ evs) n e =
      let i = shard_for (length e.shards) ev.host in
      let l = get_or e.shards i e.global in
      let stalled = record e {
        shards = set e.shards i (record l { stalled = add64 l.stalled 1 });
      } in
      elim (Option-cases (try_send ev l)) [
        | inl f ↦ elim (Option-cases (wait i stalled)) [
          | inl w ↦ rw (f, w, admit_from) refl
          | inr (e', w) ↦ rw (f, w, admit_from) (omega (arith, admit_from-total wait evs (n + 1)))
        ]
        | inr (l', f) ↦ rw (f, admit_from) (omega (arith, admit_from-total wait evs (n + 1)))
      ]

  -- Every event of a request is answered for, as admitted or as rejected.
  pub admit-total :
      (wait : ℕ → Engine F Pr → Option (Engine F Pr)) (evs : List (Event F)) (e : Engine F Pr)
      → let counts = (admit wait evs e).0 in counts.0 + counts.1 ≡ length evs
  unfolding admit
  admit-total wait evs e = omega (arith, admit_from-total wait evs 0 e)

  abbrev pub inbox_of : ℕ → Engine F Pr → List (Event F)
  inbox_of j e = (get_or e.shards j e.global).inbox

  abbrev pub no_wait : ℕ → Engine F Pr → Option (Engine F Pr)
  no_wait i e = none

  abbrev sent : Event F → Loop F Pr → Loop F Pr
  sent ev l = record l { inbox = l.inbox ++ ev ∷ [] }

  abbrev send : Event F → Engine F Pr → Engine F Pr
  send ev e =
      let i = shard_for (length e.shards) ev.host in
      record e { shards = set e.shards i (sent ev (get_or e.shards i e.global)) }

  inbox_of-send :
      (j : ℕ) (ev : Event F) (e : Engine F Pr)
      → 0 < length e.shards
      → inbox_of j (send ev e) ≡ inbox_of j e ++ keep (goes_to (length e.shards) j) (ev ∷ [])
  inbox_of-send j ev e h =
      let i = shard_for (length e.shards) ev.host in
      let l = get_or e.shards i e.global in
      let look = get_or-set e.shards i j (sent ev l) e.global (shard_for-lt _ ev.host h) in
      ap (λ (x : Loop F Pr). x.inbox) look ∙ elim (Bool-cases (i == j)) [
        | inl q ↦ rw q (ap (λ k. inbox_of k e ++ ev ∷ []) ((==_iff i j).0 q))
        | inr q ↦ rw q (sym (append-nil (inbox_of j e)))
      ]

  admit_from-more :
      (evs : List (Event F)) (n : ℕ) (e : Engine F Pr) → n ≤ (admit_from no_wait evs n e).0.0
  unfolding admit_from
  admit_from-more [] n e = omega arith
  admit_from-more (ev ∷ evs) n e =
      elim (Option-cases
        (try_send ev (get_or e.shards (shard_for (length e.shards) ev.host) e.global))) [
          | inl f ↦ rw (f, admit_from) (omega arith)
          | inr (l', f) ↦ rw (f, admit_from) (omega (arith, admit_from-more evs (n + 1)))
        ]

  try_send-some : (ev : Event F) (l l' : Loop F Pr) → try_send ev l ≡ some l' → l' ≡ sent ev l
  unfolding try_send
  try_send-some ev l l' h = elim (Bool-cases (ltb (length l.inbox) l.inbox_capacity)) [
    | inl q ↦ some-eq _ _ (sym (sym (if_true _ _ q) ∙ h) ∙ refl)
    | inr q ↦ absurd (ground (arith, h, q))
  ]

  inbox_of-set :
      (j i : ℕ) (l' : Loop F Pr) (e : Engine F Pr)
      → i < length e.shards
      → l'.inbox ≡ inbox_of i e
      → inbox_of j (record e { shards = set e.shards i l' }) ≡ inbox_of j e
  inbox_of-set j i l' e h same =
      ap (λ (x : Loop F Pr). x.inbox) (get_or-set e.shards i j l' e.global h)
      ∙ elim (Bool-cases (i == j)) [
        | inl q ↦ rw q (same ∙ ap (λ k. inbox_of k e) ((==_iff i j).0 q))
        | inr q ↦ rw q refl
      ]

  -- A deadline that passes at shard `i` leaves every inbox as it is.
  turned_away :
      (j i n : ℕ) (e : Engine F Pr)
      → i < length e.shards
      → let l = get_or e.shards i e.global in
        let s = record e { shards = set e.shards i (record l { stalled = add64 l.stalled 1 }) } in
        let l' = get_or s.shards i s.global in
        inbox_of j
          (record s { shards = set s.shards i (record l' { rejected = add64 l'.rejected n }) })
        ≡ inbox_of j e
  turned_away j i n e h =
      let l = get_or e.shards i e.global in
      let l₁ = record l { stalled = add64 l.stalled 1 } in
      let s = record e { shards = set e.shards i l₁ } in
      let l' = get_or s.shards i s.global in
      inbox_of-set j i (record l' { rejected = add64 l'.rejected n }) s
        (omega (arith, length-set e.shards i l₁)) refl
      ∙ inbox_of-set j i l₁ e h refl

  send-rest :
      (j a n : ℕ) (ev : Event F) (evs : List (Event F)) (e : Engine F Pr)
      → 0 < length e.shards
      → n + 1 ≤ a
      → inbox_of j (send ev e)
          ++ keep (goes_to (length (send ev e).shards) j) (take (a - (n + 1)) evs)
        ≡ inbox_of j e ++ keep (goes_to (length e.shards) j) (take (a - n) (ev ∷ evs))
  send-rest j a n ev evs e h m =
      let i = shard_for (length e.shards) ev.host in
      let g = goes_to {F = F} (length e.shards) j in
      let rest = take (a - (n + 1)) evs in
      ap (λ k. inbox_of j (send ev e) ++ keep (goes_to k j) rest)
        (length-set e.shards i (sent ev (get_or e.shards i e.global)))
      ∙ ap (λ x. x ++ keep g rest) (inbox_of-send j ev e h)
      ∙ append_assoc (inbox_of j e) (keep g (ev ∷ [])) (keep g rest)
      ∙ ap (λ x. inbox_of j e ++ x)
          (sym (keep-append g (ev ∷ []) rest) ∙ ap (keep g) (sym (take-more a n ev evs m)))

  admit_from-prefix :
      (j : ℕ) (evs : List (Event F)) (n : ℕ) (e : Engine F Pr)
      → 0 < length e.shards
      → inbox_of j (admit_from no_wait evs n e).1
        ≡ inbox_of j e
          ++ keep (goes_to (length e.shards) j) (take ((admit_from no_wait evs n e).0.0 - n) evs)
  unfolding admit_from
  admit_from-prefix j [] n e h =
      let out : n - n ≡ 0 = omega arith in rw out (sym (append-nil (inbox_of j e)))
  admit_from-prefix j (ev ∷ evs) n e h =
      let i = shard_for (length e.shards) ev.host in
      let l = get_or e.shards i e.global in
      elim (Option-cases (try_send ev l)) [
        | inl f ↦
            let out : n - n ≡ 0 = omega arith in
            rw (f, admit_from, out)
              (turned_away j i (suc (length evs)) e (shard_for-lt _ ev.host h)
                ∙ sym (append-nil (inbox_of j e)))
        | inr (l', f) ↦
            rw (f, admit_from, try_send-some ev l l' f)
              (admit_from-prefix j evs (n + 1) (send ev e)
                  (omega (arith, length-set e.shards i (sent ev l)))
                ∙ send-rest j _ n ev evs e h (admit_from-more evs (n + 1) (send ev e)))
      ]

  -- When no inbox gets room while Admit waits, the events that it counts as admitted are the first of
  -- the request, and each is at the end of the inbox of its host's shard, in their order.
  pub admit-prefix :
      (evs : List (Event F)) (j : ℕ) (e : Engine F Pr)
      → 0 < length e.shards
      → inbox_of j (admit no_wait evs e).1
        ≡ inbox_of j e ++ keep (goes_to (length e.shards) j) (take (admit no_wait evs e).0.0 evs)
  unfolding admit
  admit-prefix evs j e h =
      let a = (admit_from no_wait evs 0 e).0.0 in
      let all : a - 0 ≡ a = omega arith in
      admit_from-prefix j evs 0 e h
      ∙ ap (λ k. inbox_of j e ++ keep (goes_to (length e.shards) j) (take k evs)) all
