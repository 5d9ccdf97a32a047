-- ===== src/Bitmask.antt =====
-- The bit mask of used priority levels: `arch_bitmask_set`, `arch_bitmask_clear` of
-- arch/avr/arch_port.h and the table look-up `arch_bitmask_fls` of arch/avr/arch_port.c, and the macros
-- of the other ports. `arch_bitmask_t` is a `uint8_t`, and an `int` has 16 bits.
pub mod Laws
use Prim.Native.Nat.{bit_and, bit_or}
use rados.Base.{ℕ, zero, suc, ◌+◌, ◌-◌, ◌*◌, ◌%◌, ◌^◌, List, [], ◌∷◌, ◌++◌, replicate, get_or}

unfoldable pub arch_bitmask_set : ℕ → ℕ → ℕ
arch_bitmask_set bitfield bit = bit_or bitfield (2 ^ bit) % 2 ^ 8

unfoldable pub arch_bitmask_clear : ℕ → ℕ → ℕ
arch_bitmask_clear bitfield bit = bit_and bitfield (2 ^ 16 - 1 - 2 ^ bit) % 2 ^ 8

unfoldable pub log2lkup : List ℕ
log2lkup =
    0 ∷ 1 ∷ replicate 2 2
    ++ replicate 4 3
    ++ replicate 8 4
    ++ replicate 16 5
    ++ replicate 32 6
    ++ replicate 64 7
    ++ replicate 128 8

-- The table covers every `uint8_t`.
unfoldable pub arch_bitmask_fls : ℕ → ℕ
unfolding log2lkup
arch_bitmask_fls bitfield = get_or log2lkup bitfield 0

-- The same text in arch/msp430/arch_port.h and arch/msp430/arch_port.c.
unfoldable pub msp430_bitmask_set : ℕ → ℕ → ℕ
msp430_bitmask_set = arch_bitmask_set

unfoldable pub msp430_bitmask_clear : ℕ → ℕ → ℕ
msp430_bitmask_clear = arch_bitmask_clear

unfoldable pub msp430_bitmask_fls : ℕ → ℕ
msp430_bitmask_fls = arch_bitmask_fls

-- arch/linux/arch_port.h, where an `int` has 32 bits.
unfoldable pub linux_bitmask_set : ℕ → ℕ → ℕ
linux_bitmask_set bitfield bit = bit_or bitfield (2 ^ bit) % 2 ^ 8

unfoldable pub linux_bitmask_clear : ℕ → ℕ → ℕ
linux_bitmask_clear bitfield bit = bit_and bitfield (2 ^ 32 - 1 - 2 ^ bit) % 2 ^ 8
