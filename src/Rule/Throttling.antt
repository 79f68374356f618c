-- ===== src/Rule/Throttling.antt =====
-- The throttle node: what passes in one window.
use riemann_go.Base.{
  ℕ, zero, suc, ◌+◌, ◌≡◌, refl, sym, Bool, true, false, List, [], ◌∷◌, leb, if◌then◌else◌, arith,
  All, take, take-nil, ◌-◌, ◌<◌, ◌||◌, length, add64, half_word,
}
use riemann_go.Base.Float.{Float}
use riemann_go.Event.{Event}
use riemann_go.Rule.Runtime.{Throttle}
use riemann_go.Rule.Steps.{throttle_step, throttle_count}

-- Taking on from place n of `limit`, by the test of the node.
take-rest :
    {A : Type 0} (limit n k : ℕ) (a : A) (xs : List A)
    → k ≡ limit - n
    → take k (a ∷ xs)
      ≡ (if leb (n + 1) limit then a ∷ take (limit - (n + 1)) xs else take (limit - (n + 1)) xs)
take-rest limit n zero a xs h =
    let over : leb (n + 1) limit ≡ false = ground arith in
    let out : limit - (n + 1) ≡ 0 = omega arith in rw (over, out)
take-rest limit n (suc k) a xs h =
    let under : leb (n + 1) limit ≡ true = ground arith in
    let rest : limit - (n + 1) ≡ k = omega arith in rw (under, rest)

counted-le : (n limit : ℕ) → n < half_word → (leb half_word n || leb n limit) ≡ leb n limit
counted-le n limit h = ground (arith, h)

module _ {F : Type 0} ⦃fl : Float F⦄ where
  -- The events that a throttle lets pass, of a run, and the discarded ones.
  unfoldable pub throttled : ℕ → F → Throttle F → List (Event F) → List (Event F)
  throttled limit span t [] = []
  throttled limit span t (ev ∷ evs) =
      let (t', passes) = throttle_step limit span t ev in
      let rest = throttled limit span t' evs in if passes then ev ∷ rest else rest

  abbrev pub IsWithin : F → Event F → Type 0
  IsWithin window_end ev = fl.fle window_end ev.time ≡ false

  -- The event opens a window: none is open, or it stands at or past the end of the one that is.
  abbrev pub opens : Throttle F → Event F → Bool
  opens t ev = elim t.open_window [ false ↦ true | true ↦ fl.fle t.window_end ev.time ]

  -- An event of an open window only raises the count.
  throttle_step-within :
      (limit : ℕ) (span : F) (t : Throttle F) (ev : Event F)
      → t.count + 1 < half_word
      → t.open_window ≡ true
      → IsWithin t.window_end ev
      → throttle_step limit span t ev ≡ (record t { count = t.count + 1 }, leb (t.count + 1) limit)
  unfolding throttle_step throttle_count
  throttle_step-within limit span t ev w o h =
      let next : add64 t.count 1 ≡ t.count + 1 = omega (arith, w) in
      rw (o, h, next, counted-le (t.count + 1) limit w)

  throttle_step-opens :
      (limit : ℕ) (span : F) (t : Throttle F) (ev : Event F)
      → opens t ev ≡ true
      → throttle_step limit span t ev
        ≡ (record { open_window = true; window_end = fl.fadd ev.time span; count = 1 }, leb 1 limit)
  unfolding throttle_step throttle_count
  throttle_step-opens limit span t ev o = ground (arith, o, counted-le 1 limit (omega arith))

  within :
      (limit : ℕ) (span : F) (t : Throttle F) (evs : List (Event F))
      → t.count + length evs < half_word
      → t.open_window ≡ true
      → All (IsWithin t.window_end) evs
      → throttled limit span t evs ≡ take (limit - t.count) evs
  unfolding throttled
  within limit span t [] w o h = sym (take-nil (limit - t.count))
  within limit span t (ev ∷ evs) w o h = rw (
    throttle_step-within limit span t ev (omega (arith, w)) o h.0,
    within limit span (record t { count = t.count + 1 }) evs (omega (arith, w)) o h.1,
    take-rest limit t.count (limit - t.count) ev evs refl,
  )

  -- Of a run of fewer than 2^63 events that stays in the window that its first event opens, the first
  -- `limit` events pass and no others.
  pub throttled-take :
      (limit : ℕ) (span : F) (t : Throttle F) (ev : Event F) (evs : List (Event F))
      → length (ev ∷ evs) < half_word
      → opens t ev ≡ true
      → All (IsWithin (fl.fadd ev.time span)) evs
      → throttled limit span t (ev ∷ evs) ≡ take limit (ev ∷ evs)
  unfolding throttled
  throttled-take limit span t ev evs w o h = rw (
    throttle_step-opens limit span t ev o,
    within limit span (record { open_window = true; window_end = fl.fadd ev.time span; count = 1 })
        evs (omega (arith, w)) refl h,
    take-rest limit 0 limit ev evs (omega arith),
  )
