-- ===== src/Bitmask/Laws.antt =====
-- The laws of the mask, checked over every value of the `uint8_t`.
use rados.Base.{
  ℕ, zero, suc, ◌-◌, if◌then◌else◌, ◌/◌, ◌%◌, ◌^◌, ◌≤◌, ◌<◌, ◌≡◌, refl, Bool, true, false, ◌&&◌,
  ◌||◌, not, ◌==◌, arith, ltb, leb, every, every-at,
}
use rados.Bitmask.{arch_bitmask_set, arch_bitmask_clear, arch_bitmask_fls}

-- Whether bit `p` of the mask is set.
pub bit : ℕ → ℕ → Bool
bit m p = (m / 2 ^ p) % 2 == 1

same : Bool → Bool → Bool
same true b = b
same false b = not b

same→eq : (a b : Bool) → same a b ≡ true → a ≡ b
unfolding same
same→eq true b h = ground arith
same→eq false b h = ground arith

-- A test of every mask and two of its bits.
everywhere : (ℕ → ℕ → ℕ → Bool) → Bool
unfolding every
everywhere f = every (λ m. every (λ p. every (f m p) 8) 8) 256

everywhere-at :
    (f : ℕ → ℕ → ℕ → Bool) (m p q : ℕ)
    → everywhere f ≡ true
    → m < 256
    → p < 8
    → q < 8
    → f m p q ≡ true
unfolding everywhere
everywhere-at f m p q h hm hp hq =
    let mask = every-at (λ m. every (λ p. every (f m p) 8) 8) 256 m hm h in
    every-at (f m p) 8 q hq (every-at (λ p. every (f m p) 8) 8 p hp mask)

set_test : ℕ → ℕ → ℕ → Bool
unfolding bit same
set_test m p q = same (bit (arch_bitmask_set m p) q) (q == p || bit m q)

clear_test : ℕ → ℕ → ℕ → Bool
unfolding bit same
clear_test m p q = same (bit (arch_bitmask_clear m p) q) (not (q == p) && bit m q)

set_table : everywhere set_test ≡ true
unfolding everywhere set_test arch_bitmask_set
set_table = refl

clear_table : everywhere clear_test ≡ true
unfolding everywhere clear_test arch_bitmask_clear
clear_table = refl

-- For an 8 bit mask and positions below 8, `arch_bitmask_set` sets the bit at its position and
-- leaves every other bit.
pub bit-arch_bitmask_set :
    (m p q : ℕ) → m < 256 → p < 8 → q < 8 → bit (arch_bitmask_set m p) q ≡ (q == p || bit m q)
unfolding set_test
bit-arch_bitmask_set m p q hm hp hq = same→eq _ _ (everywhere-at set_test m p q set_table hm hp hq)

-- For an 8 bit mask and positions below 8, `arch_bitmask_clear` clears the bit at its position and
-- leaves every other bit.
pub bit-arch_bitmask_clear :
    (m p q : ℕ)
    → m < 256
    → p < 8
    → q < 8
    → bit (arch_bitmask_clear m p) q ≡ (not (q == p) && bit m q)
unfolding clear_test
bit-arch_bitmask_clear m p q hm hp hq =
    same→eq _ _ (everywhere-at clear_test m p q clear_table hm hp hq)

pub arch_bitmask_set-lt : (m p : ℕ) → arch_bitmask_set m p < 256
unfolding arch_bitmask_set
arch_bitmask_set-lt m p = omega arith

pub arch_bitmask_clear-lt : (m p : ℕ) → arch_bitmask_clear m p < 256
unfolding arch_bitmask_clear
arch_bitmask_clear-lt m p = omega arith

above_test : ℕ → ℕ → ℕ → Bool
unfolding bit
above_test m p q = ltb q (arch_bitmask_fls m) || not (bit m q)

top_test : ℕ → ℕ → ℕ → Bool
unfolding bit
top_test m p q =
    leb (arch_bitmask_fls m) q || (leb (arch_bitmask_fls m) 8 && bit m (arch_bitmask_fls m - 1))

above_table : everywhere above_test ≡ true
unfolding everywhere above_test arch_bitmask_fls
above_table = refl

top_table : everywhere top_test ≡ true
unfolding everywhere top_test arch_bitmask_fls
top_table = refl

-- For an 8 bit mask, every bit from the result of `arch_bitmask_fls` up to 7 is clear.
pub bit-above_fls : (m q : ℕ) → m < 256 → q < 8 → arch_bitmask_fls m ≤ q → bit m q ≡ false
unfolding above_test
bit-above_fls m q hm hq h =
    ground (arith, everywhere-at above_test m 0 q above_table hm (omega arith) hq)

-- For an 8 bit mask, where `arch_bitmask_fls` gives a position plus one, that position is below 8
-- and its bit is set.
pub bit-fls : (m p : ℕ) → m < 256 → arch_bitmask_fls m ≡ suc p → (p < 8) × (bit m p ≡ true)
unfolding top_test
bit-fls m p hm h =
    let found = everywhere-at top_test m 0 0 top_table hm (omega arith) (omega arith) in
    let e : arch_bitmask_fls m - 1 ≡ p = omega arith in ground (arith, found, e)

-- The highest set bit below `n` by a search from the top, counted from 1, or 0.
highest : ℕ → ℕ → ℕ
highest zero m = 0
highest (suc n) m = let rest = highest n m in if bit m n then suc n else rest

highest_test : ℕ → Bool
highest_test m = arch_bitmask_fls m == highest 8 m

highest_table : every highest_test 256 ≡ true
unfolding every highest_test highest bit arch_bitmask_fls
highest_table = refl

-- For an 8 bit mask the table look-up of `arch_bitmask_fls` gives what a search of the bits from
-- the top gives: the position of the highest set bit plus one, or 0.
arch_bitmask_fls_lem : (m : ℕ) → m < 256 → arch_bitmask_fls m ≡ highest 8 m
unfolding highest_test
arch_bitmask_fls_lem m small = ground (arith, every-at highest_test 256 m small highest_table)
