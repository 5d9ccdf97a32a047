-- ===== src/Examples/Masks.antt =====
-- Leading zeros, counted bit by bit.
use rados.Base.{
  ℕ, zero, suc, inl, inr, ◌-◌, ◌≤◌, ◌<◌, ◌^◌, Bool-cases, ◌≡◌, arith, ltb, if◌then◌else◌,
}
use rados.Bitmask
use rados.Port.Linux.Fls.{CountsZeros, arch_bitmask_fls, arch_bitmask_fls-builtin_clz}

bits : ℕ → ℕ → ℕ
bits zero x = 0
bits (suc n) x = if ltb x (2 ^ n) then bits n x else suc n

bits_lem :
    (n x : ℕ)
    → 0 < x
    → x < 2 ^ n
    → (0 < bits n x) × (bits n x ≤ n) × (2 ^ (bits n x - 1) ≤ x) × (x < 2 ^ bits n x)
unfolding bits
bits_lem zero x pos small = absurd (omega arith)
bits_lem (suc n) x pos small = elim (Bool-cases (ltb x (2 ^ n))) [
  | inl below ↦
      let (p, q, lo, hi) = bits_lem n x pos (ground arith) in rw below (p, omega arith, lo, hi)
  | inr above ↦ rw above (omega arith, omega arith, ground arith, small)
]

abbrev count_zeros : ℕ → ℕ
count_zeros x = 32 - bits 32 x

count_zeros-CountsZeros : CountsZeros count_zeros
count_zeros-CountsZeros = record {
  small = λ x pos h. let (p, q, lo, hi) = bits_lem 32 x pos h in omega arith;
  highest = λ x pos h.
      let (p, q, lo, hi) = bits_lem 32 x pos h in
      rw (let e : 31 - (32 - bits 32 x) ≡ bits 32 x - 1 = omega arith in e) lo;
  above = λ x pos h.
      let (p, q, lo, hi) = bits_lem 32 x pos h in
      rw (let e : 32 - (32 - bits 32 x) ≡ bits 32 x = omega arith in e) hi;
}

arch_bitmask_fls-builtin_clz_example : arch_bitmask_fls count_zeros 40 ≡ Bitmask.arch_bitmask_fls 40
arch_bitmask_fls-builtin_clz_example =
    arch_bitmask_fls-builtin_clz count_zeros count_zeros-CountsZeros 40 (omega arith)
