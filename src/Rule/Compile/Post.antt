-- ===== src/Rule/Compile/Post.antt =====
-- Postconditions of the compiler's steps: the value has a property, and the error is not that the fuel
-- ran out.
use riemann_go.Base.{String, ◌≡◌, ◌≢◌, Bool, true, false, Option, none, some, refl, if◌then◌else◌}
use riemann_go.Event.{ok, err}
use riemann_go.Rule.Compile.Defs.{Problem, perr, out_of_fuel, Outcome, ◌>>=◌, require, or_fail}

pub data Post {ℓ} {A : Type 0} (P : A → Type ℓ) : Outcome A → Type ℓ where
  returns : {a : A} → P a → Post P (ok a)
  throws : {place : String} {problem : Problem} → Post P (err (perr place problem))

module _ {ℓ} {A : Type 0} {P : A → Type ℓ} where
  infixl 1 ◌⟫◌
  pub ◌⟫◌ {κ} :
      {B : Type 0} {Q : B → Type κ} {r : Outcome A} {f : A → Outcome B}
      → Post P r
      → ((a : A) → P a → Post Q (f a))
      → Post Q (r >>= f)
  unfolding ◌>>=◌
  returns {a} h ⟫ k = k a h
  throws ⟫ k = throws

  pub if_Post : (b : Bool) {r r' : Outcome A} → Post P r → Post P r' → Post P (if b then r else r')
  if_Post true h k = h
  if_Post false h k = k

  -- the same, where a branch needs its test
  pub test_Post :
      (b : Bool) {r r' : Outcome A}
      → (b ≡ true → Post P r)
      → (b ≡ false → Post P r')
      → Post P (if b then r else r')
  test_Post true h k = h refl
  test_Post false h k = k refl

  pub weaken {κ} : {Q : A → Type κ} {r : Outcome A} → ((a : A) → P a → Q a) → Post P r → Post Q r
  weaken g (returns h) = returns (g _ h)
  weaken g throws = throws

  pub of_ok : {a : A} → Post P (ok a) → P a
  of_ok (returns h) = h

  pub Post-ne-out_of_fuel : {r : Outcome A} → Post P r → r ≢ err out_of_fuel
  Post-ne-out_of_fuel (returns h) e = cc
  Post-ne-out_of_fuel throws e = cc

pub both_Post {ℓ κ} :
    {A : Type 0} {P : A → Type ℓ} {Q : A → Type κ} {r : Outcome A}
    → Post P r
    → Post Q r
    → Post (λ a. P a × Q a) r
both_Post (returns h) k = returns (h, of_ok k)
both_Post throws k = throws

pub require-Post :
    (b : Bool) (place : String) (problem : Problem)
    → Post (λ _. b ≡ true) (require b (perr place problem))
unfolding require
require-Post true p q = returns refl
require-Post false p q = throws

pub or_fail-Post :
    {A : Type 0} (o : Option A) (place : String) (problem : Problem)
    → Post (λ a. o ≡ some a) (or_fail o (perr place problem))
unfolding or_fail
or_fail-Post none p q = throws
or_fail-Post (some a) p q = returns refl
