-- ===== src/Port/Linux/Fls.antt =====
-- `arch_bitmask_fls` of arch/linux/arch_port.h, by the leading zeros of a word of 32 bits.
use rados.Base.{
  ℕ, ◌-◌, ◌^◌, ◌<◌, ◌≤◌, ◌≡◌, Bool, true, false, ◌||◌, ◌&&◌, every, every-at, ltb, leb, refl, inl,
  inr, ◌⊎◌, arith, ◌==◌, if◌then◌else◌,
}
use rados.Bitmask
use native.Mathlib.Nat.{pow-le-pow_right}

-- What is documented of `__builtin_clz`, for a number that is not 0: the number of zeros in front of
-- the highest bit.
pub record CountsZeros (builtin_clz : ℕ → ℕ) : Type 0 where
  pub small : (x : ℕ) → 0 < x → x < 2 ^ 32 → builtin_clz x < 32
  pub highest : (x : ℕ) → 0 < x → x < 2 ^ 32 → 2 ^ (31 - builtin_clz x) ≤ x
  pub above : (x : ℕ) → 0 < x → x < 2 ^ 32 → x < 2 ^ (32 - builtin_clz x)

unfoldable pub arch_bitmask_fls : (ℕ → ℕ) → ℕ → ℕ
arch_bitmask_fls builtin_clz bitfield = if bitfield == 0 then 0 else 32 - builtin_clz bitfield

-- The table of the other ports gives the place behind the highest bit.
is_behind : ℕ → ℕ → ℕ → ℕ → Bool
is_behind m f low high = m == 0 || (ltb 0 f && leb low m && ltb m high)

is_behind_lem :
    (m f low high : ℕ) → 0 < m → is_behind m f low high ≡ true → (0 < f) × (low ≤ m) × (m < high)
unfolding is_behind
is_behind_lem m f low high pos t = (ground arith, ground arith, ground arith)

test : ℕ → Bool
test m = let f = Bitmask.arch_bitmask_fls m in is_behind m f (2 ^ (f - 1)) (2 ^ f)

table : every test 256 ≡ true
unfolding every test is_behind Bitmask.arch_bitmask_fls
table = refl

le_or_lt : (i j : ℕ) → (i ≤ j) ⊎ (j < i)
le_or_lt i j = ground arith

-- One place only is behind the highest bit.
not_above : (m i j : ℕ) → m < 2 ^ i → 2 ^ j ≤ m → j < i
not_above m i j hi lo = elim (le_or_lt i j) [
  | inl le ↦ let e : 2 ^ i ≤ 2 ^ j = pow-le-pow_right (omega arith) le in absurd (omega arith)
  | inr lt ↦ lt
]

-- For an 8 bit mask, with a `__builtin_clz` that counts the zeros in front of the highest bit of a
-- word of 32 bits, `arch_bitmask_fls` of the Linux port gives what the table of the other ports
-- gives.
pub arch_bitmask_fls-builtin_clz :
    (builtin_clz : ℕ → ℕ)
    → CountsZeros builtin_clz
    → (m : ℕ) → m < 256
    → arch_bitmask_fls builtin_clz m ≡ Bitmask.arch_bitmask_fls m
unfolding arch_bitmask_fls test
arch_bitmask_fls-builtin_clz builtin_clz c m small = elim (le_or_lt m 0) [
  | inl none_set ↦ rw (let e : m ≡ 0 = omega arith in e) (unfold Bitmask.arch_bitmask_fls in refl)
  | inr pos ↦
      let f = Bitmask.arch_bitmask_fls m in
      let (f_pos, low, high) =
        is_behind_lem m f (2 ^ (f - 1)) (2 ^ f) pos (every-at test 256 m small table) in
      let word : m < 2 ^ 32 = omega arith in
      let first = not_above m (32 - builtin_clz m) (f - 1) (c.above m pos word) low in
      let second = not_above m f (31 - builtin_clz m) high (c.highest m pos word) in
      let there = c.small m pos word in
      let some_set : (m == 0) ≡ false = ground arith in rw some_set (omega arith)
]
