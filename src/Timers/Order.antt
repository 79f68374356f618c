-- ===== src/Timers/Order.antt =====
-- The order of the timers of a heap.
use riemann_go.Base.{◌≡◌, true, false, arith}
use riemann_go.Base.Float.{Float, not_flt_trans, flt_asym}
use riemann_go.Heap.Order.{IsOrder}
use riemann_go.Timers.{Timer, less}

module _ {F C : Type 0} ⦃fl : Float F⦄ where
  abbrev pub IsTimed : Timer F C → Type 0
  IsTimed t = fl.is_nan t.due ≡ false

  less_irrefl : (x : Timer F C) → less x x ≡ false
  unfolding less
  less_irrefl x = ground (arith, fl.flt_irrefl x.due)

  less_asym : (x y : Timer F C) → less x y ≡ true → less y x ≡ false
  unfolding less
  less_asym x y h = ground (
    arith,
    flt_asym x.due y.due,
    fl.feq_flt x.due y.due,
    fl.feq_flt y.due x.due,
    fl.feq_of y.due x.due,
    fl.feq_of x.due y.due,
  )

  less_trans :
      (x y z : Timer F C) → IsTimed y → less y x ≡ false → less z y ≡ false → less z x ≡ false
  unfolding less
  less_trans x y z ok h k = ground (
    arith,
    not_flt_trans x.due y.due z.due ok,
    not_flt_trans y.due x.due z.due,
    not_flt_trans x.due z.due y.due,
    not_flt_trans z.due x.due y.due,
    not_flt_trans y.due z.due x.due,
    fl.feq_flt z.due x.due,
    fl.feq_flt y.due x.due,
    fl.feq_flt z.due y.due,
    fl.feq_of y.due x.due,
    fl.feq_of z.due y.due,
    fl.feq_of z.due x.due,
    fl.flt_nan z.due x.due,
  )

  pub timer_order : IsOrder (less {F = F} {C = C}) IsTimed
  timer_order = record { irrefl = less_irrefl; asym = less_asym; trans = less_trans }
