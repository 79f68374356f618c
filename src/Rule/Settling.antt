-- ===== src/Rule/Settling.antt =====
-- The stable node: what its buffer holds, and where each event goes.
use riemann_go.Base.{
  ℕ, zero, suc, ◌+◌, ◌-◌, ◌≤◌, ◌<◌, ◌≡◌, refl, ap, sym, ◌∙◌, Bool, false, ◌||◌, not, List, subst,
  if_false, [], ◌∷◌, ◌++◌, String, str_eq, eq_iff, arith, Bool-cases, inl, inr, All, length, drop,
  length-append, length-drop, All-append,
}
use riemann_go.Base.Float.{Float}
use riemann_go.Event.{Event, field_key}
use riemann_go.Rule.Runtime.{Stable}
use riemann_go.Rule.Steps.{
  StableAction, arm, pass_event, hold, hold_and_release, stable_step, hold_step, dropped_for,
  settled, first_stable,
}

All-drop : {A : Type 0} (P : A → Type 0) (n : ℕ) (xs : List A) → All P xs → All P (drop n xs)
All-drop P zero xs h = h
All-drop P (suc n) [] h = h
All-drop P (suc n) (x ∷ xs) h = All-drop P n xs h.1

-- How many events an outcome discards, and what it passes of the arriving one.
abbrev pub discards : StableAction → ℕ
discards (arm n) = n
discards pass_event = 0
discards (hold n) = n
discards (hold_and_release n) = n

abbrev pub passed : {A : Type 0} → StableAction → A → List A
passed pass_event ev = ev ∷ []
passed _ ev = []

module _ {F : Type 0} ⦃fl : Float F⦄ where
  abbrev pub HasKey : String → String → Event F → Type 0
  HasKey field v ev = field_key ev field ≡ v

  -- Each buffered event has the value last seen, there are no more of them than the capacity (where
  -- there is one), and a node that was never given an event holds none.
  pub record IsSettling (field : String) (capacity : ℕ) (s : Stable F) : Type 0 where
    pub same : All (HasKey field s.last) s.buffer
    pub fits : 0 < capacity → length s.buffer ≤ capacity
    pub fresh : s.have_last ≡ false → s.buffer ≡ []

  pub first_stable-IsSettling :
      (field : String) (capacity : ℕ) → IsSettling field capacity first_stable
  first_stable-IsSettling field capacity = record {
    same = tt;
    fits = λ h. omega arith;
    fresh = λ _. refl;
  }

  held_back : F → ℕ → Stable F → Event F → List (Event F)
  held_back duration capacity s ev = drop (dropped_for capacity s.buffer) s.buffer ++ ev ∷ []

  hold_step-held_back :
      (duration : F) (capacity : ℕ) (s : Stable F) (ev : Event F)
      → let (s', action) = hold_step duration capacity s ev in
        (s'.buffer ≡ held_back duration capacity s ev)
        × (s'.last ≡ s.last)
        × (s'.have_last ≡ s.have_last)
        × (discards action ≡ dropped_for capacity s.buffer)
        × (passed action ev ≡ [])
  unfolding hold_step held_back
  hold_step-held_back duration capacity s ev =
      elim (Bool-cases
        (settled duration ev (drop (dropped_for capacity s.buffer) s.buffer ++ ev ∷ []))) [
          | inl e ↦ rw e (refl, refl, refl, refl, refl)
          | inr e ↦ rw e (refl, refl, refl, refl, refl)
        ]

  length-held_back :
      (duration : F) (capacity : ℕ) (s : Stable F) (ev : Event F)
      → length (held_back duration capacity s ev)
        ≡ length s.buffer - dropped_for capacity s.buffer + 1
  unfolding held_back
  length-held_back duration capacity s ev = omega (
    arith,
    length-append (drop (dropped_for capacity s.buffer) s.buffer) (ev ∷ []),
    length-drop (dropped_for capacity s.buffer) s.buffer,
  )

  held_back-All :
      (duration : F) (field : String) (capacity : ℕ) (s : Stable F) (ev : Event F)
      → All (HasKey field s.last) s.buffer
      → HasKey field s.last ev
      → All (HasKey field s.last) (held_back duration capacity s ev)
  unfolding held_back
  held_back-All duration field capacity s ev h k =
      let n = dropped_for capacity s.buffer in
      All-append (HasKey field s.last) (drop n s.buffer) (ev ∷ [])
        (All-drop (HasKey field s.last) n s.buffer h) (k, tt)

  room :
      (capacity : ℕ) (buffer : List (Event F))
      → 0 < capacity
      → length buffer ≤ capacity
      → length buffer - dropped_for capacity buffer + 1 ≤ capacity
  room capacity buffer c h = ground arith

  -- The value differs from the last one, or there is none.
  abbrev changes : String → Stable F → Event F → Bool
  changes field s ev = not s.have_last || not (str_eq (field_key ev field) s.last)

  hold_step-IsSettling :
      (duration : F) (field : String) (capacity : ℕ) (s : Stable F) (ev : Event F)
      → changes field s ev ≡ false
      → IsSettling field capacity s
      → IsSettling field capacity (hold_step duration capacity s ev).0
  hold_step-IsSettling duration field capacity s ev e inv =
      let (buffer_is, last_is, have_last_is, _, _) = hold_step-held_back duration capacity s ev in
      let s' = (hold_step duration capacity s ev).0 in
      let last_key : field_key ev field ≡ s.last =
        ground (arith, eq_iff (field_key ev field) s.last) in
      record {
        same =
            subst (λ l. All (HasKey field l) s'.buffer) (sym last_is)
              (subst (All (HasKey field s.last)) (sym buffer_is)
                (held_back-All duration field capacity s ev inv.same last_key));
        fits = λ c. omega (
          arith,
          ap length buffer_is,
          length-held_back duration capacity s ev,
          room capacity s.buffer c (inv.fits c),
        );
        fresh = λ f. absurd (ground arith);
      }

  stable_step-holding :
      (duration : F) (field : String) (capacity : ℕ) (s : Stable F) (ev : Event F)
      → changes field s ev ≡ false
      → s.stable ≡ false
      → stable_step duration field capacity s ev ≡ hold_step duration capacity s ev
  unfolding stable_step
  stable_step-holding duration field capacity s ev e st = if_false _ _ e ∙ if_false _ _ st

  -- Whatever arrives, each buffered event has the value last seen, and the buffer holds no more events
  -- than its capacity, where that is positive.
  pub stable_step-IsSettling :
      (duration : F) (field : String) (capacity : ℕ) (s : Stable F) (ev : Event F)
      → IsSettling field capacity s
      → IsSettling field capacity (stable_step duration field capacity s ev).0
  unfolding stable_step
  stable_step-IsSettling duration field capacity s ev inv = elim (Bool-cases (changes field s ev)) [
    | inl e ↦
        rw e
          record { same = (refl, tt); fits = λ h. omega arith; fresh = λ h. absurd (ground arith) }
    | inr e ↦ elim (Bool-cases s.stable) [
      | inl st ↦ rw (e, st) record { same = inv.same; fits = inv.fits; fresh = inv.fresh }
      | inr st ↦
          subst (λ x. IsSettling field capacity x.0)
            (sym (stable_step-holding duration field capacity s ev e st))
            (hold_step-IsSettling duration field capacity s ev e inv)
    ]
  ]

  -- The buffer and then the arriving event are the events that are discarded, then the new buffer, and
  -- then what is passed on.
  unfoldable pub IsAccounted : Stable F → Event F → Stable F × StableAction → Type 0
  IsAccounted s ev (s', action) =
      (front : List (Event F)) × (length front ≡ discards action)
      × (s.buffer ++ ev ∷ [] ≡ front ++ (s'.buffer ++ passed action ev))
