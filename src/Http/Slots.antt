-- ===== src/Http/Slots.antt =====
-- LimitListener (server.go): the bound on open connections, and that no slot is lost.
use riemann_go.Base.{
  ℕ, zero, suc, ◌+◌, ◌≤◌, ◌<◌, ◌≡◌, ◌≢◌, refl, sym, ◌∙◌, Bool, true, false, Option, none, some,
  List, [], ◌∷◌, ◌++◌, ltb, ltb→lt, lt→ltb, if_true, set, get_elem?, arith, Bool-cases, inl, inr,
}
use riemann_go.Http.Limit.{
  LimitListener, new_limit_listener, take_slot, accept_fails, accept_succeeds, return_conn,
  close_found, close_conn, free_slot, leave_gauge,
}

-- The connections that were returned and are not marked as closed
unfoldable pub open_conns : List Bool → ℕ
open_conns [] = 0
open_conns (true ∷ cs) = open_conns cs
open_conns (false ∷ cs) = suc (open_conns cs)

-- A step of a call of Accept or of Close, of any number of them.
pub data Step : LimitListener → LimitListener → Type 0 where
  takes : {l t : LimitListener} → take_slot l ≡ some t → Step l t
  fails : {l t : LimitListener} → 0 < l.accepting → t ≡ accept_fails l → Step l t
  succeeds : {l t : LimitListener} → 0 < l.accepting → t ≡ accept_succeeds l → Step l t
  returns : {l t : LimitListener} → 0 < l.counting → t ≡ return_conn l → Step l t
  closes : {l t : LimitListener} (i : ℕ) → t ≡ close_conn i l → Step l t
  frees : {l t : LimitListener} → 0 < l.closing → t ≡ free_slot l → Step l t
  leaves : {l t : LimitListener} → 0 < l.leaving → t ≡ leave_gauge l → Step l t

pub data Reach (l : LimitListener) : LimitListener → Type 0 where
  here : Reach l l
  next : {t u : LimitListener} → Reach l t → Step t u → Reach l u

pub record IsLimited (max : ℕ) (l : LimitListener) : Type 0 where
  pub kept : l.max ≡ max
  pub slots : l.sem ≡ l.accepting + l.counting + open_conns l.conns + l.closing
  pub bound : l.sem ≤ max
  pub gauged : l.gauge ≡ open_conns l.conns + l.closing + l.leaving

open_conns-append : (cs : List Bool) → open_conns (cs ++ false ∷ []) ≡ open_conns cs + 1
unfolding open_conns
open_conns-append [] = refl
open_conns-append (true ∷ cs) = open_conns-append cs
open_conns-append (false ∷ cs) = omega (arith, open_conns-append cs)

open_conns-set :
    (cs : List Bool) (i : ℕ)
    → get_elem? cs i ≡ some false
    → open_conns (set cs i true) + 1 ≡ open_conns cs
unfolding open_conns
open_conns-set [] i h = cc
open_conns-set (true ∷ cs) zero h = cc
open_conns-set (false ∷ cs) zero h = omega arith
open_conns-set (true ∷ cs) (suc i) h = open_conns-set cs i h
open_conns-set (false ∷ cs) (suc i) h = omega (arith, open_conns-set cs i h)

close_found-IsLimited :
    (max : ℕ) (l : LimitListener) (i : ℕ) (o : Option Bool)
    → get_elem? l.conns i ≡ o
    → IsLimited max l
    → IsLimited max (close_found i o l)
unfolding close_found
close_found-IsLimited max l i none e h = h
close_found-IsLimited max l i (some true) e h = h
close_found-IsLimited max l i (some false) e h = omega (arith, open_conns-set l.conns i e)

take_slot-IsLimited :
    (max : ℕ) (l t : LimitListener) → take_slot l ≡ some t → IsLimited max l → IsLimited max t
unfolding take_slot
take_slot-IsLimited max l t e h = ground arith

Step-IsLimited : (max : ℕ) {l t : LimitListener} → Step l t → IsLimited max l → IsLimited max t
unfolding accept_fails accept_succeeds return_conn close_conn free_slot leave_gauge
Step-IsLimited max (takes {l} {t} e) h = take_slot-IsLimited max l t e h
Step-IsLimited max (fails a e) h = rw e (omega arith)
Step-IsLimited max (succeeds a e) h = rw e (omega arith)
Step-IsLimited max (returns {l} a e) h = rw e (omega (arith, open_conns-append l.conns))
Step-IsLimited max (closes {l} i e) h =
    rw e (close_found-IsLimited max l i (get_elem? l.conns i) refl h)
Step-IsLimited max (frees a e) h = rw e (omega arith)
Step-IsLimited max (leaves a e) h = rw e (omega arith)

new-IsLimited : (max : ℕ) → IsLimited max (new_limit_listener max)
unfolding new_limit_listener open_conns
new-IsLimited max = omega arith

pub Reach-IsLimited :
    (max : ℕ) {l : LimitListener} → Reach (new_limit_listener max) l → IsLimited max l
Reach-IsLimited max here = new-IsLimited max
Reach-IsLimited max (next r st) = Step-IsLimited max st (Reach-IsLimited max r)

-- So many steps
pub data Steps : ℕ → LimitListener → LimitListener → Type 0 where
  done : {l : LimitListener} → Steps 0 l l
  further : {n : ℕ} {l t u : LimitListener} → Step l t → Steps n t u → Steps (suc n) l u

find_open : (cs : List Bool) → 0 < open_conns cs → (i : ℕ) × (get_elem? cs i ≡ some false)
unfolding open_conns
find_open [] h = absurd (omega arith)
find_open (true ∷ cs) h = let (i, e) = find_open cs h in (suc i, e)
find_open (false ∷ cs) h = (zero, refl)

take_slot-ne-none : (l : LimitListener) → l.sem < l.max → take_slot l ≢ none
unfolding take_slot
take_slot-ne-none l h e = cc (
    sym (
      if_true (some (record l { sem = l.sem + 1; accepting = l.accepting + 1 })) none
        (lt→ltb l.sem l.max h))
    ∙ e)

-- So many steps of the program, after which a call of Accept gets a slot
abbrev Frees : ℕ → LimitListener → Type 0
Frees n l = (t : LimitListener) × Steps n l t × (take_slot t ≢ none)

after : (n : ℕ) {l t : LimitListener} → Step l t → Frees n t → Frees (suc n) l
after n s (u, steps, free) = (u, further s steps, free)

fails-Frees :
    (max : ℕ) (l : LimitListener) → 0 < max → IsLimited max l → 0 < l.accepting → Frees 1 l
unfolding accept_fails
fails-Frees max l p h a =
    after 0 (fails a refl) (accept_fails l, done, take_slot-ne-none (accept_fails l) (omega arith))

frees-Frees : (max : ℕ) (l : LimitListener) → 0 < max → IsLimited max l → 0 < l.closing → Frees 1 l
unfolding free_slot
frees-Frees max l p h a =
    after 0 (frees a refl) (free_slot l, done, take_slot-ne-none (free_slot l) (omega arith))

closing-close_conn :
    (l : LimitListener) (i : ℕ) → get_elem? l.conns i ≡ some false → 0 < (close_conn i l).closing
unfolding close_conn close_found
closing-close_conn l i e = rw (e, close_found) (omega arith)

closes-Frees :
    (max : ℕ) (l : LimitListener) → 0 < max → IsLimited max l → 0 < open_conns l.conns → Frees 2 l
closes-Frees max l p h a =
    let (i, e) = find_open l.conns a in
    let s : Step l (close_conn i l) = closes i refl in
    after 1 s
      (frees-Frees max (close_conn i l) p (Step-IsLimited max s h) (closing-close_conn l i e))

returns-Frees :
    (max : ℕ) (l : LimitListener) → 0 < max → IsLimited max l → 0 < l.counting → Frees 3 l
unfolding return_conn
returns-Frees max l p h a =
    let s : Step l (return_conn l) = returns a refl in
    after 2 s (
      closes-Frees max (return_conn l) p (Step-IsLimited max s h)
        (omega (arith, open_conns-append l.conns)))

-- In every reachable state of a listener whose bound is not 0, the next call of Accept gets a slot, at once
-- or after at most three steps that the calls under way, or a Close of a connection, can make there.
pub take_slot-frees :
    (max : ℕ) {l : LimitListener}
    → 0 < max
    → Reach (new_limit_listener max) l
    → (n : ℕ) × (n ≤ 3) × ((t : LimitListener) × Steps n l t × (take_slot t ≢ none))
take_slot-frees max {l} p r =
    let h = Reach-IsLimited max r in
    elim (Bool-cases (ltb l.sem l.max)) [
      | inl e ↦ (0, omega arith, (l, done, take_slot-ne-none l (ltb→lt l.sem l.max e)))
      | inr e ↦ elim (Bool-cases (ltb 0 l.accepting)) [
        | inl a ↦ (1, omega arith, fails-Frees max l p h (ltb→lt 0 l.accepting a))
        | inr a ↦ elim (Bool-cases (ltb 0 l.closing)) [
          | inl c ↦ (1, omega arith, frees-Frees max l p h (ltb→lt 0 l.closing c))
          | inr c ↦ elim (Bool-cases (ltb 0 l.counting)) [
            | inl w ↦ (3, omega arith, returns-Frees max l p h (ltb→lt 0 l.counting w))
            | inr w ↦ (2, omega arith, closes-Frees max l p h (some_open max l p h e a c w))
          ]
        ]
      ]
    ]
  where
    some_open :
        (max : ℕ) (l : LimitListener)
        → 0 < max
        → IsLimited max l
        → ltb l.sem l.max ≡ false
        → ltb 0 l.accepting ≡ false
        → ltb 0 l.closing ≡ false
        → ltb 0 l.counting ≡ false
        → 0 < open_conns l.conns
    some_open max l p h e a c w = ground arith
