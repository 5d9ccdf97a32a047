-- ===== src/Port/Linux/Atomic.antt =====
-- The atomic accesses of arch/linux/arch_port.h: builtins of the compiler on one cell of memory, whose
-- type has `values` numbers. A builtin that reads and writes does both as one access.
use rados.Base.{ℕ, ◌+◌, ◌-◌, ◌%◌, Bool, true, false, ◌==◌, if◌then◌else◌, update}

-- Memory by cells.
abbrev pub Cells : Type 0
Cells = ℕ → ℕ

module _ (values : ℕ) where
  unfoldable pub linux_atomic_inc_load : ℕ → Cells → ℕ × Cells
  linux_atomic_inc_load ptr cells = let v = (cells ptr + 1) % values in (v, update cells ptr v)

  unfoldable pub linux_atomic_dec_load : ℕ → Cells → ℕ × Cells
  linux_atomic_dec_load ptr cells =
      let v = (cells ptr + (values - 1)) % values in (v, update cells ptr v)

  unfoldable pub linux_atomic_inc : ℕ → Cells → Cells
  linux_atomic_inc ptr cells = (linux_atomic_inc_load ptr cells).1

  unfoldable pub linux_atomic_dec : ℕ → Cells → Cells
  linux_atomic_dec ptr cells = (linux_atomic_dec_load ptr cells).1

  unfoldable pub linux_atomic_load : ℕ → Cells → ℕ
  linux_atomic_load ptr cells = cells ptr

  unfoldable pub linux_atomic_store : ℕ → ℕ → Cells → Cells
  linux_atomic_store ptr val cells = update cells ptr (val % values)

  unfoldable pub linux_atomic_exch : ℕ → ℕ → Cells → ℕ × Cells
  linux_atomic_exch ptr val cells = (cells ptr, update cells ptr (val % values))

  -- The result says whether the exchange failed; then the expected value becomes the one found.
  unfoldable pub linux_atomic_cmp_exch : ℕ → ℕ → ℕ → Cells → Bool × Cells
  linux_atomic_cmp_exch ptr exp_ref val cells =
      if cells ptr == cells exp_ref
      then (false, update cells ptr (val % values))
      else (true, update cells exp_ref (cells ptr))
