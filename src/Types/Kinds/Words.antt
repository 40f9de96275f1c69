-- ===== src/Types/Kinds/Words.antt =====
-- types/scan_value.go: integers cut to the width of a variable.
use go_pg.Base.{◌<◌, ◌≡◌, refl, arith, none, some, subst, []}
use go_pg.Base.Int.{ℤ, pos, negsuc}
use go_pg.Types.Append.{append_int}
use go_pg.Types.Decimal.{IsInt, atoi-append_int}
use go_pg.Types.Kinds.{Width, w8, w16, w32, w64, half, set_int, int, scan_value}

-- The number is one of a signed variable of that width.
abbrev pub Fits : Width → ℤ → Type 0
Fits w (pos n) = n < half w
Fits w (negsuc n) = n < half w

pub set_int-eq : (w : Width) (n : ℤ) → Fits w n → set_int w n ≡ n
unfolding set_int
set_int-eq w8 (pos n) h = ground (arith, h)
set_int-eq w8 (negsuc n) h = ground (arith, h)
set_int-eq w16 (pos n) h = ground (arith, h)
set_int-eq w16 (negsuc n) h = ground (arith, h)
set_int-eq w32 (pos n) h = ground (arith, h)
set_int-eq w32 (negsuc n) h = ground (arith, h)
set_int-eq w64 (pos n) h = ground (arith, h)
set_int-eq w64 (negsuc n) h = ground (arith, h)

set_int-Fits : (w : Width) (n : ℤ) → Fits w (set_int w n)
unfolding set_int
set_int-Fits w8 (pos n) = ground arith
set_int-Fits w8 (negsuc n) = ground arith
set_int-Fits w16 (pos n) = ground arith
set_int-Fits w16 (negsuc n) = ground arith
set_int-Fits w32 (pos n) = ground arith
set_int-Fits w32 (negsuc n) = ground arith
set_int-Fits w64 (pos n) = ground arith
set_int-Fits w64 (negsuc n) = ground arith

pub Fits-IsInt : (w : Width) (n : ℤ) → Fits w n → IsInt n
Fits-IsInt w8 (pos n) h = omega (arith, h)
Fits-IsInt w8 (negsuc n) h = omega (arith, h)
Fits-IsInt w16 (pos n) h = omega (arith, h)
Fits-IsInt w16 (negsuc n) h = omega (arith, h)
Fits-IsInt w32 (pos n) h = omega (arith, h)
Fits-IsInt w32 (negsuc n) h = omega (arith, h)
Fits-IsInt w64 (pos n) h = omega (arith, h)
Fits-IsInt w64 (negsuc n) h = omega (arith, h)

-- A signed variable of `w` bits takes every 64-bit number that the server sends without an error. What
-- it then holds is in its range, and is the number sent exactly when that is in its range: a larger
-- one is silently replaced by another.
pub scan_value-cut :
    (w : Width) (old n : ℤ)
    → IsInt n
    → (scan_value (int w) old (some (append_int [] n)) ≡ (none, set_int w n))
      × Fits w (set_int w n)
      × (Fits w n → set_int w n ≡ n)
      × (set_int w n ≡ n → Fits w n)
unfolding scan_value
scan_value-cut w old n h = (
  rw (atoi-append_int n h) refl,
  set_int-Fits w n,
  set_int-eq w n,
  λ e. subst (Fits w) e (set_int-Fits w n),
)
