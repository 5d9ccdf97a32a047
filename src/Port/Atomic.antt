-- ===== src/Port/Atomic.antt =====
-- The atomic accesses of arch/avr/arch_port.h and arch/msp430/arch_port.h: macros over cells of one or
-- two bytes in memory, low byte first. Where they say so the ports differ; the rest has one text.
pub mod Cells
pub mod Laws
use rados.Base.{ℕ, ◌+◌, ◌-◌, ◌*◌, ◌/◌, ◌%◌, ◌^◌, Bool, true, false, ◌==◌, if◌then◌else◌, update}
use rados.Kernel.{Kernel}
use rados.Kernel.Run.{
  M, crash, halted, pure, ◌>>=◌, ◌>>◌, get, modify, arch_critical_enter, arch_critical_exit,
}

-- Interrupts off, and an endless loop.
unfoldable pub arch_halt : {A : Type 0} → M A
arch_halt k = halted (record k { dint = true })

abbrev pub cell8 : ℕ → Kernel → ℕ
cell8 ptr k = k.memory ptr

abbrev pub cell16 : ℕ → Kernel → ℕ
cell16 ptr k = k.memory ptr + 2 ^ 8 * k.memory (ptr + 1)

unfoldable pub put8 : ℕ → ℕ → Kernel → Kernel
put8 ptr v k = record k { memory = update k.memory ptr (v % 2 ^ 8) }

unfoldable pub put16 : ℕ → ℕ → Kernel → Kernel
put16 ptr v k = record k {
  memory = update (update k.memory ptr (v % 2 ^ 8)) (ptr + 1) (v / 2 ^ 8 % 2 ^ 8);
}

-- `size` is that of the cell.
unfoldable pub os_atomic_inc_load : ℕ → ℕ → M ℕ
os_atomic_inc_load size ptr =
    if size == 1
    then (do
      cristate ← arch_critical_enter
      modify (λ k. put8 ptr (cell8 ptr k + 1) k)
      k ← get
      arch_critical_exit cristate
      pure (cell8 ptr k))
    else if size == 2
    then (do
      cristate ← arch_critical_enter
      modify (λ k. put16 ptr (cell16 ptr k + 1) k)
      k ← get
      arch_critical_exit cristate
      pure (cell16 ptr k))
    else arch_halt

unfoldable pub os_atomic_dec_load : ℕ → ℕ → M ℕ
os_atomic_dec_load size ptr =
    if size == 1
    then (do
      cristate ← arch_critical_enter
      modify (λ k. put8 ptr (cell8 ptr k + (2 ^ 8 - 1)) k)
      k ← get
      arch_critical_exit cristate
      pure (cell8 ptr k))
    else if size == 2
    then (do
      cristate ← arch_critical_enter
      modify (λ k. put16 ptr (cell16 ptr k + (2 ^ 16 - 1)) k)
      k ← get
      arch_critical_exit cristate
      pure (cell16 ptr k))
    else arch_halt

unfoldable pub os_atomic_inc : ℕ → ℕ → M (Unit {0})
os_atomic_inc size ptr = do os_atomic_inc_load size ptr; pure tt

unfoldable pub os_atomic_dec : ℕ → ℕ → M (Unit {0})
os_atomic_dec size ptr = do os_atomic_dec_load size ptr; pure tt

-- `os_atomic_load` and `os_atomic_exch` compile for cells of two bytes only.
unfoldable pub os_atomic_load : ℕ → M ℕ
os_atomic_load ptr = do
  cristate ← arch_critical_enter
  k ← get
  arch_critical_exit cristate
  pure (cell16 ptr k)

-- A cell of another size is left alone.
unfoldable pub os_atomic_store : ℕ → ℕ → ℕ → M (Unit {0})
os_atomic_store size ptr val =
    if size == 2
    then (do cristate ← arch_critical_enter; modify (put16 ptr val); arch_critical_exit cristate)
    else pure tt

unfoldable pub os_atomic_exch : ℕ → ℕ → M ℕ
os_atomic_exch ptr val = do
  cristate ← arch_critical_enter
  k ← get
  modify (put16 ptr val)
  arch_critical_exit cristate
  pure (cell16 ptr k)

-- The result says whether the exchange failed. For a cell of another size it is a variable that was
-- never written.
unfoldable pub os_atomic_cmp_exch : ℕ → ℕ → ℕ → ℕ → M Bool
os_atomic_cmp_exch size ptr ptr_exp_val val =
    if size == 2
    then (do
      before ← get
      let exp_val = cell16 ptr_exp_val before
      cristate ← arch_critical_enter
      k ← get
      if cell16 ptr k == exp_val
          then (do modify (put16 ptr val); arch_critical_exit cristate; pure false)
          else (do
            arch_critical_exit cristate
            modify (put16 ptr_exp_val (cell16 ptr k))
            pure true))
    else crash

-- On the MSP430 a word is read, written and counted by one instruction, and a cell of another size is
-- left alone.
unfoldable pub msp430_atomic_inc : ℕ → ℕ → M (Unit {0})
msp430_atomic_inc size ptr =
    if size == 2 then modify (λ k. put16 ptr (cell16 ptr k + 1) k) else pure tt

unfoldable pub msp430_atomic_dec : ℕ → ℕ → M (Unit {0})
msp430_atomic_dec size ptr =
    if size == 2 then modify (λ k. put16 ptr (cell16 ptr k + (2 ^ 16 - 1)) k) else pure tt

unfoldable pub msp430_atomic_load : ℕ → M ℕ
msp430_atomic_load ptr = do k ← get; pure (cell16 ptr k)

unfoldable pub msp430_atomic_store : ℕ → ℕ → ℕ → M (Unit {0})
msp430_atomic_store size ptr val = if size == 2 then modify (put16 ptr val) else pure tt

-- The other accesses of the MSP430 have the text of the AVR port.
unfoldable pub msp430_atomic_inc_load : ℕ → ℕ → M ℕ
msp430_atomic_inc_load = os_atomic_inc_load

unfoldable pub msp430_atomic_dec_load : ℕ → ℕ → M ℕ
msp430_atomic_dec_load = os_atomic_dec_load

unfoldable pub msp430_atomic_exch : ℕ → ℕ → M ℕ
msp430_atomic_exch = os_atomic_exch

unfoldable pub msp430_atomic_cmp_exch : ℕ → ℕ → ℕ → ℕ → M Bool
msp430_atomic_cmp_exch = os_atomic_cmp_exch
