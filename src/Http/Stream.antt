-- ===== src/Http/Stream.antt =====
-- internal/httpapi/server.go: the frames that subscribe writes. A read of the subscriber's channel comes
-- with the count of dropped events at that moment. A write that fails ends the stream: what a client gets
-- is a prefix of the frames.
use riemann_go.Base.{
  ℕ, ◌+◌, ◌-◌, ◌≡◌, refl, ap, List, [], ◌∷◌, ◌++◌, map, ltb, if◌then◌else◌, arith, Bool-cases, inl,
  inr, ltb→lt, keep, ◌∙◌,
}
use riemann_go.Base.Float.{Float}
use riemann_go.Event.{Event, is_writable}

pub data Frame (F : Type 0) : Type 0 where
  snapshot : Event F → Frame F
  lagged : ℕ → Frame F
  live : Event F → Frame F

module _ {F : Type 0} ⦃fl : Float F⦄ where
  -- `frame`: an event that json.Marshal does not write makes no frame.
  shown : (Event F → Frame F) → Event F → List (Frame F) → List (Frame F)
  shown make ev rest = if is_writable ev then make ev ∷ rest else rest

  snapshot_frames : List (Event F) → List (Frame F)
  unfolding shown
  snapshot_frames [] = []
  snapshot_frames (ev ∷ snap) = shown snapshot ev (snapshot_frames snap)

  -- The loop of subscribe, with `reported` of the dropped events reported.
  unfoldable pub live_frames : ℕ → List (Event F × ℕ) → List (Frame F)
  unfolding shown
  live_frames reported [] = []
  live_frames reported ((ev, dropped) ∷ reads) =
      let told = lagged (dropped - reported) ∷ shown live ev (live_frames dropped reads) in
      let same = shown live ev (live_frames reported reads) in
      if ltb reported dropped then told else same

  unfoldable pub frames : List (Event F) → List (Event F × ℕ) → List (Frame F)
  unfolding snapshot_frames live_frames
  frames snap reads = snapshot_frames snap ++ live_frames 0 reads

  -- The events of the frames, and the sum of what they say was missed
  unfoldable pub events_in : List (Frame F) → List (Event F)
  events_in [] = []
  events_in (snapshot ev ∷ fs) = ev ∷ events_in fs
  events_in (lagged n ∷ fs) = events_in fs
  events_in (live ev ∷ fs) = ev ∷ events_in fs

  unfoldable pub missed_in : List (Frame F) → ℕ
  missed_in [] = 0
  missed_in (snapshot ev ∷ fs) = missed_in fs
  missed_in (lagged n ∷ fs) = n + missed_in fs
  missed_in (live ev ∷ fs) = missed_in fs

  -- The highest count of dropped events that was read, or `m` if it is higher
  unfoldable pub highest : ℕ → List (Event F × ℕ) → ℕ
  highest m [] = m
  highest m ((ev, dropped) ∷ reads) = highest (if ltb m dropped then dropped else m) reads

  shown-keep :
      (make : Event F → Frame F) (ev : Event F) (fs : List (Frame F)) (evs : List (Event F))
      → ((gs : List (Frame F)) → events_in (make ev ∷ gs) ≡ ev ∷ events_in gs)
      → events_in fs ≡ keep is_writable evs
      → events_in (shown make ev fs) ≡ keep is_writable (ev ∷ evs)
  unfolding shown
  shown-keep make ev fs evs m h = elim (Bool-cases (is_writable ev)) [
    | inl e ↦ rw e (m fs ∙ ap (◌∷◌ ev) h)
    | inr e ↦ rw e h
  ]

  missed-shown :
      (make : Event F → Frame F) (ev : Event F) (fs : List (Frame F))
      → ((gs : List (Frame F)) → missed_in (make ev ∷ gs) ≡ missed_in gs)
      → missed_in (shown make ev fs) ≡ missed_in fs
  unfolding shown
  missed-shown make ev fs m = elim (Bool-cases (is_writable ev)) [
    | inl e ↦ rw e (m fs)
    | inr e ↦ rw e refl
  ]

  live_frames_says :
      (r : ℕ) (reads : List (Event F × ℕ))
      → (events_in (live_frames r reads) ≡ keep is_writable (map (λ x. x.0) reads))
        × (missed_in (live_frames r reads) + r ≡ highest r reads)
  unfolding live_frames events_in missed_in highest
  live_frames_says r [] = (refl, omega arith)
  live_frames_says r ((ev, d) ∷ reads) = elim (Bool-cases (ltb r d)) [
    | inl e ↦
        let (evs, sum) = live_frames_says d reads in
        rw e (
          shown-keep live ev (live_frames d reads) (map (λ x. x.0) reads) (λ gs. refl) evs,
          omega (arith, missed-shown live ev (live_frames d reads) (λ gs. refl), sum, ltb→lt r d e),
        )
    | inr e ↦
        let (evs, sum) = live_frames_says r reads in
        rw e (
          shown-keep live ev (live_frames r reads) (map (λ x. x.0) reads) (λ gs. refl) evs,
          omega (arith, missed-shown live ev (live_frames r reads) (λ gs. refl), sum),
        )
  ]

  -- The frames of a stream hold the events of the snapshot and then every event that was read from the
  -- subscriber, in order, but those that json.Marshal does not write; and what the lagged frames say was
  -- missed sums up to the highest count of dropped events that was read.
  pub frames_says :
      (snap : List (Event F)) (reads : List (Event F × ℕ))
      → (events_in (frames snap reads) ≡ keep is_writable (snap ++ map (λ x. x.0) reads))
        × (missed_in (frames snap reads) ≡ highest 0 reads)
  unfolding frames events_in missed_in snapshot_frames
  frames_says [] reads = let (evs, sum) = live_frames_says 0 reads in (evs, omega arith)
  frames_says (ev ∷ snap) reads =
      let (evs, sum) = frames_says snap reads in
      elim (Bool-cases (is_writable ev)) [
        | inl e ↦ rw (e, shown) (ap (◌∷◌ ev) evs, sum)
        | inr e ↦ rw (e, shown) (evs, sum)
      ]
