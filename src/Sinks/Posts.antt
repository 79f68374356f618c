-- ===== src/Sinks/Posts.antt =====
-- Deliver (ntfy.go): what is posted, and when a batch counts as delivered.
use riemann_go.Base.{
  ℕ, zero, suc, ◌+◌, ◌≤◌, ◌<◌, ◌≡◌, ◌≢◌, ◌⊎◌, refl, sym, ◌∙◌, ap, subst, Bool, true, false, List,
  [], ◌∷◌, map, String, length, take, arith, Bool-cases, inl, inr,
}
use riemann_go.Base.Float.{Float}
use riemann_go.Rule.{Emitted}
use riemann_go.Sinks.Reply.{Reply, no_request, no_response, status, is_delivered, posted_of}
use riemann_go.Sinks.Ntfy.{Message, Encoder, body, deliver}

-- A response with a status from 200 to 299
unfoldable pub IsFine : Reply → Type 0
IsFine r = (code : ℕ) × (r ≡ status code) × (200 ≤ code) × (code ≤ 299)

status-eq : (m n : ℕ) → status m ≡ status n → m ≡ n
status-eq m n h = cc

is_delivered-IsFine : (r : Reply) → is_delivered r ≡ true → IsFine r
unfolding is_delivered IsFine
is_delivered-IsFine no_request h = cc
is_delivered-IsFine no_response h = cc
is_delivered-IsFine (status code) h = (code, refl, ground (arith, h), ground (arith, h))

not_delivered-IsFine : (r : Reply) → is_delivered r ≡ false → ¬ IsFine r
unfolding is_delivered IsFine
not_delivered-IsFine no_request h (code, e, low, high) = cc
not_delivered-IsFine no_response h (code, e, low, high) = cc
not_delivered-IsFine (status n) h (code, e, low, high) =
    let same = status-eq n code e in ground (arith, h, same, low, high)

module _ {F : Type 0} ⦃fl : Float F⦄ (json : Encoder F) (topic : String) (answer : ℕ → Reply) where
  take_one_more :
      (f : Emitted F) (fs : List (Emitted F)) (i : ℕ)
      → body json topic f ∷ map (body json topic) (take (i + 1) fs)
        ≡ map (body json topic) (take (suc i + 1) (f ∷ fs))
  take_one_more f fs i =
      let e : suc i + 1 ≡ suc (i + 1) = omega arith in
      ap (λ n. map (body json topic) (take n (f ∷ fs))) (sym e)

  -- The bodies that are posted up to firing i, with which the delivery stops.
  unfoldable pub IsCut : ℕ → Reply → List (Emitted F) → List Message → Type 0
  IsCut i r fs posted =
      ((r ≡ no_request) × (posted ≡ map (body json topic) (take i fs)))
      ⊎ ((r ≢ no_request) × (posted ≡ map (body json topic) (take (i + 1) fs)))

  -- Every firing is posted and answered well, or those up to one that is not.
  unfoldable pub IsPosted : ℕ → List (Emitted F) → List Message × Bool → Type 0
  unfolding IsFine IsCut
  IsPosted k fs (posted, true) =
      (posted ≡ map (body json topic) fs) × ((i : ℕ) → i < length fs → IsFine (answer (k + i)))
  IsPosted k fs (posted, false) =
      (i : ℕ) × (i < length fs)
      × (¬ IsFine (answer (k + i)))
      × ((j : ℕ) → j < i → IsFine (answer (k + j)))
      × IsCut i (answer (k + i)) fs posted

  -- The answers from request k + 1 on are the later ones from request k on.
  later : (P : Reply → Type 0) (k i : ℕ) → P (answer (k + 1 + i)) → P (answer (k + suc i))
  later P k i h = subst (λ n. P (answer n)) (omega arith) h

  first : (P : Reply → Type 0) (k : ℕ) → P (answer k) → P (answer (k + 0))
  first P k h = subst (λ n. P (answer n)) (omega arith) h

  below_one :
      (k n i : ℕ)
      → IsFine (answer k)
      → ((j : ℕ) → j < n → IsFine (answer (k + 1 + j)))
      → i < suc n
      → IsFine (answer (k + i))
  below_one k n zero h a l = first IsFine k h
  below_one k n (suc i) h a l = later IsFine k i (a i (omega arith))

  one_more-IsCut :
      (i : ℕ) (r : Reply) (f : Emitted F) (fs : List (Emitted F)) (posted : List Message)
      → IsCut i r fs posted
      → IsCut (suc i) r (f ∷ fs) (body json topic f ∷ posted)
  unfolding IsCut
  one_more-IsCut i r f fs posted (inl (e, p)) = inl (e, ap (◌∷◌ (body json topic f)) p)
  one_more-IsCut i r f fs posted (inr (e, p)) =
      inr (e, ap (◌∷◌ (body json topic f)) p ∙ take_one_more f fs i)

  one_more-IsPosted :
      (k : ℕ) (f : Emitted F) (fs : List (Emitted F)) (r : List Message × Bool)
      → IsFine (answer k)
      → IsPosted (k + 1) fs r
      → IsPosted k (f ∷ fs) (body json topic f ∷ r.0, r.1)
  unfolding IsPosted
  one_more-IsPosted k f fs (posted, true) h (p, a) =
      (ap (◌∷◌ (body json topic f)) p, λ i l. below_one k (length fs) i h a l)
  one_more-IsPosted k f fs (posted, false) h (i, l, bad, before, cut) = (
    suc i,
    omega arith,
    later (λ r. ¬ IsFine r) k i bad,
    λ j l'. below_one k i j h before l',
    later (λ r. IsCut (suc i) r (f ∷ fs) (body json topic f ∷ posted)) k i
        (one_more-IsCut i (answer (k + 1 + i)) f fs posted cut),
  )

  posted_of-IsCut :
      (r : Reply) (f : Emitted F) (fs : List (Emitted F))
      → IsCut 0 r (f ∷ fs) (posted_of r (body json topic f))
  unfolding IsCut posted_of
  posted_of-IsCut no_request f fs = inl (refl, refl)
  posted_of-IsCut no_response f fs = inr ((λ e. cc), refl)
  posted_of-IsCut (status n) f fs = inr ((λ e. cc), refl)

  -- Deliver counts a batch as delivered exactly if it has posted the body of every firing, in order, and
  -- each was answered by a status from 200 to 299; else it has posted the bodies before the first firing
  -- that was not answered so, and that one's too, unless no request could be made of it, and none after it.
  pub deliver-IsPosted :
      (k : ℕ) (fs : List (Emitted F)) → IsPosted k fs (deliver json topic answer k fs)
  unfolding deliver IsPosted
  deliver-IsPosted k [] = (refl, λ i l. absurd (omega arith))
  deliver-IsPosted k (f ∷ fs) = elim (Bool-cases (is_delivered (answer k))) [
    | inl e ↦ rw e (
        one_more-IsPosted k f fs (deliver json topic answer (k + 1) fs)
          (is_delivered-IsFine (answer k) e) (deliver-IsPosted (k + 1) fs))
    | inr e ↦ rw e (
      0,
      omega arith,
      first (λ r. ¬ IsFine r) k (not_delivered-IsFine (answer k) e),
      (λ j l. absurd (omega arith)),
      first (λ r. IsCut 0 r (f ∷ fs) (posted_of (answer k) (body json topic f))) k
          (posted_of-IsCut (answer k) f fs),
    )
  ]
