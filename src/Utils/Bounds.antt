-- ===== src/Utils/Bounds.antt =====
-- Where the 64-bit arithmetic of the pagination is exact, on the numbers that it is called with.
use matrix_static.Prelude.{
  ℕ, suc, ◌+◌, ◌-◌, ◌*◌, ◌^◌, ◌≤◌, ◌<◌, ◌≡◌, ◌⊎◌, arith, ℤ, pos, negsuc, ◌≤ℤ◌, ◌<ℤ◌, add64, sub64,
  mul64,
}
use matrix_static.Utils.{min_int, max_int, bound, calc_pagination_start_end}
use Prim.Native.Nat.{min, max}

pub add64-pos : (a b : ℕ) → a + b < 2 ^ 63 → add64 (pos a) (pos b) ≡ pos (a + b)
unfolding add64
add64-pos a b h = ground arith

pub sub64-pos : (a b : ℕ) → b ≤ a → a < 2 ^ 63 → sub64 (pos a) (pos b) ≡ pos (a - b)
unfolding sub64
sub64-pos a b h k = ground arith

pub sub64-neg : (a b : ℕ) → a < b → b ≤ 2 ^ 63 → sub64 (pos a) (pos b) ≡ negsuc (b - a - 1)
unfolding sub64
sub64-neg a b h k = ground arith

pub mul64-pos : (a b : ℕ) → a * b < 2 ^ 63 → mul64 (pos a) (pos b) ≡ pos (a * b)
unfolding mul64
mul64-pos a b h = ground arith

pub min_int-pos : (a b : ℕ) → min_int (pos a) (pos b) ≡ pos (min a b)
unfolding min_int
min_int-pos a b = ground arith

pub max_int-pos : (a b : ℕ) → max_int (pos a) (pos b) ≡ pos (max a b)
unfolding max_int
max_int-pos a b = ground arith

-- From page 1 on, the offsets of a page are the multiples of the page size, cut at the length.
pub calc_pagination_start_end-pos :
    (k size len : ℕ)
    → k * size < 2 ^ 63
    → len + size < 2 ^ 63
    → k < 2 ^ 62
    → calc_pagination_start_end (pos (suc k)) (pos size) (pos len)
      ≡ (pos (min (k * size) len), pos (min (min (k * size) len + size) len))
unfolding calc_pagination_start_end
calc_pagination_start_end-pos k size len fits room small = ground (
  arith,
  sub64-pos (suc k) 1,
  mul64-pos k size,
  min_int-pos (k * size) len,
  add64-pos (min (k * size) len) size,
  min_int-pos (min (k * size) len + size) len,
)

-- `Bound` returns `val` if it lies in the interval, and else the end that it is beyond.
pub bound-InRange :
    (lo val hi : ℤ)
    → lo ≤ℤ hi
    → ((lo ≤ℤ val) × (val ≤ℤ hi) × (bound lo val hi ≡ val))
      ⊎ ((val <ℤ lo) × (bound lo val hi ≡ lo))
      ⊎ ((hi <ℤ val) × (bound lo val hi ≡ hi))
unfolding bound
bound-InRange lo val hi h = ground arith
