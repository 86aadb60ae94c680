-- ===== src/Floats.antt =====
-- A Python `float` as its IEEE 754 binary64 pattern, for the modules that compute with prices. Sums,
-- products and quotients are the exact rational rounded to the nearest float, ties to even.
use hermes_quant_agent.Prelude.{
  ℕ, zero, suc, ◌+◌, ◌-◌, ◌*◌, ◌/◌, ◌%◌, ◌^◌, Bool, true, false, not, ◌&&◌, ◌||◌, ltb, leb, nat_eq,
  ◌==◌, ◌≡◌, refl, if◌then◌else◌,
}

abbrev pub Float : Type 0
Float = ℕ

-- 2 ^ 63
abbrev pub sign_bit : ℕ
sign_bit = 9223372036854775808

-- the pattern of infinity, 2047 * 2 ^ 52
abbrev pub infinity : Float
infinity = 9218868437227405312

abbrev pub float_zero : Float
float_zero = 0

-- `1.0`
abbrev pub float_one : Float
float_one = 4607182418800017408

unfoldable pub is_negative : Float → Bool
is_negative x = leb sign_bit x

-- `abs(x)`
unfoldable pub magnitude : Float → Float
magnitude x = x % sign_bit

-- `-x`
unfoldable pub opposite : Float → Float
opposite x = if leb sign_bit x then x - sign_bit else x + sign_bit

-- `math.isfinite(x)`
unfoldable pub is_finite : Float → Bool
unfolding magnitude
is_finite x = ltb (magnitude x) infinity

unfoldable pub is_nan : Float → Bool
unfolding magnitude
is_nan x = ltb infinity (magnitude x)

-- A number that grows with the value of a float that is not a NaN, the same for both zeros.
unfoldable pub rank : Float → ℕ
unfolding magnitude is_negative
rank x = if is_negative x then sign_bit - magnitude x else sign_bit + magnitude x

-- `x < y`
unfoldable pub less : Float → Float → Bool
unfolding is_nan rank
less x y = not (is_nan x) && not (is_nan y) && ltb (rank x) (rank y)

-- `x <= y`
unfoldable pub at_most : Float → Float → Bool
unfolding is_nan rank
at_most x y = not (is_nan x) && not (is_nan y) && leb (rank x) (rank y)

-- `x == y`
unfoldable pub same : Float → Float → Bool
unfolding is_nan rank
same x y = not (is_nan x) && not (is_nan y) && rank x == rank y

-- The number of binary digits, the fuel being at least their number.
bits : ℕ → ℕ → ℕ
bits zero n = 0
bits (suc fuel) n = let rest = bits fuel (n / 2) in if n == 0 then 0 else rest + 1

-- More binary digits than any numerator or denominator below has.
abbrev digits_fuel : ℕ
digits_fuel = 9000

-- `num / den` in units of `2 ^ unit / 2 ^ 1074`, to the nearest even
nearest : ℕ → ℕ → ℕ → ℕ
nearest num den unit =
    let n = num * 2 ^ 1074 in
    let d = den * 2 ^ unit in
    let q = n / d in let r = n % d * 2 in if ltb d r || (r == d && q % 2 == 1) then q + 1 else q

-- The unit of the last place of `num / den`.
last_place : ℕ → ℕ → ℕ
unfolding bits
last_place num den =
    let unit = bits digits_fuel num + 1074 - (bits digits_fuel den + 53) in
    if ltb (num * 2 ^ 1074 / (den * 2 ^ unit)) (2 ^ 53) then unit else unit + 1

-- The magnitude of the float nearest to `num / den`.
unfoldable pub rounded : ℕ → ℕ → Float
unfolding nearest last_place
rounded num den =
    let unit = last_place num den in
    let pattern = unit * 2 ^ 52 + nearest num den unit in
    if num == 0 then 0 else if ltb pattern infinity then pattern else infinity

signed : Bool → Float → Float
signed negative x = if negative then x + sign_bit else x

-- The numerator of a finite magnitude over `2 ^ 1074`.
units : Float → ℕ
units x = let e = x / 2 ^ 52 in if e == 0 then x else (x % 2 ^ 52 + 2 ^ 52) * 2 ^ (e - 1)

abbrev nan : Float
nan = 9221120237041090560

-- `x / y` of finite floats, `y` not zero
unfoldable pub divide : Float → Float → Float
unfolding signed units rounded magnitude is_negative bits last_place nearest
divide x y =
    let value = rounded (units (magnitude x)) (units (magnitude y)) in
    signed (not (is_negative x && is_negative y) && (is_negative x || is_negative y)) value

-- `x * y` of finite floats
unfoldable pub times : Float → Float → Float
unfolding signed units rounded magnitude is_negative
times x y =
    let value = rounded (units (magnitude x) * units (magnitude y)) (2 ^ 2148) in
    signed (not (is_negative x && is_negative y) && (is_negative x || is_negative y)) value

finite_minus : ℕ → ℕ → Float
unfolding signed rounded
finite_minus a b =
    if leb b a then rounded (a - b) (2 ^ 1074) else signed true (rounded (b - a) (2 ^ 1074))

-- `x - y`, where infinity stays what it is against a finite float
unfoldable pub minus : Float → Float → Float
unfolding finite_minus units magnitude is_negative is_finite opposite signed rounded
minus x y =
    let a = units (magnitude x) in
    let b = units (magnitude y) in
    if not (is_finite x) && not (is_finite y)
    then nan
    else if not (is_finite x)
    then x
    else if not (is_finite y)
    then opposite y
    else if is_negative x
    then (if is_negative y then finite_minus b a else signed true (rounded (a + b) (2 ^ 1074)))
    else (if is_negative y then rounded (a + b) (2 ^ 1074) else finite_minus a b)

-- `math.isclose(x, y, rel_tol=tol, abs_tol=tol)`
unfoldable pub is_close : Float → Float → Float → Bool
unfolding same is_finite magnitude minus times at_most
is_close tol x y =
    let difference = magnitude (minus y x) in
    let near_y = at_most difference (magnitude (times tol y)) in
    let near_x = at_most difference (magnitude (times tol x)) in
    if same x y
    then true
    else if not (is_finite x) || not (is_finite y)
    then false
    else near_y || near_x || at_most difference tol

-- 8.0 / 3.0
divide_runs : divide 4620693217682128896 4613937818241073152 ≡ 4613187218303178069
unfolding divide signed units rounded magnitude is_negative bits last_place nearest nat_eq
divide_runs = refl

-- 0.3 - 1.0
minus_runs : minus 4599075939470750515 4607182418800017408 ≡ 13827852295878370918
unfolding minus signed units rounded magnitude is_negative bits last_place nearest nat_eq
    finite_minus is_finite opposite
minus_runs = refl
