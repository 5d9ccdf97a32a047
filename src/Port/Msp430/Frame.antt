-- ===== src/Port/Msp430/Frame.antt =====
-- What the registers that `pushm` saves are, and what `popm` brings back.
use rados.Base.{
  ℕ, zero, suc, ◌+◌, ◌-◌, ◌*◌, ◌%◌, ◌^◌, ◌≤◌, ◌<◌, ◌≡◌, refl, List, [], ◌∷◌, arith, length, update,
  ◌&&◌, ltb, leb, if◌then◌else◌,
}
use rados.Port.Words.{put_words, HoldsWords}
use rados.Port.Msp430.{Cpu, push, pushm, popm}

-- The values of `n` registers from R`r` downwards.
abbrev pub from_top : (ℕ → ℕ) → ℕ → ℕ → List ℕ
from_top regs r zero = []
from_top regs r (suc n) = regs r ∷ from_top regs (r - 1) n

pub length-from_top : (regs : ℕ → ℕ) (r n : ℕ) → length (from_top regs r n) ≡ n
length-from_top regs r zero = refl
length-from_top regs r (suc n) = omega (arith, length-from_top regs (r - 1) n)

pub pushm_lem :
    (n r : ℕ) (m : Cpu)
    → 2 * n ≤ m.sp
    → m.sp < 2 ^ 16
    → pushm n r m
      ≡ record m { ram = put_words (m.sp - 2) (from_top m.regs r n) m.ram; sp = m.sp - 2 * n }
unfolding pushm push put_words
pushm_lem zero r m room small = ground arith
pushm_lem (suc n) r m room small =
    let e : (m.sp + (2 ^ 16 - 2)) % 2 ^ 16 ≡ m.sp - 2 = omega arith in
    rw e (
      ground (
        arith,
        pushm_lem n (r - 1) (record m { sp = m.sp - 2; ram = update m.ram (m.sp - 2) (m.regs r) }),
      ))

-- The CPU `m'` after `popm n,r` of saved registers that stand below `top`.
pub record Popped (n r top : ℕ) (saved : ℕ → ℕ) (m m' : Cpu) : Type 0 where
  pub regs : (i : ℕ) → m'.regs i ≡ (if ltb r (i + n) && leb i r then saved i else m.regs i)
  pub sp : m'.sp ≡ top
  pub sr : m'.sr ≡ m.sr
  pub ram : m'.ram ≡ m.ram
  pub isr_nesting : m'.isr_nesting ≡ m.isr_nesting
  pub task_current : m'.task_current ≡ m.task_current
  pub ctx : m'.ctx ≡ m.ctx

pub popm-Popped :
    (n r top : ℕ) (saved : ℕ → ℕ) (m : Cpu)
    → n ≤ r
    → m.sp + 2 * n ≡ top
    → top < 2 ^ 16
    → HoldsWords m.ram (top - 2) (from_top saved r n)
    → Popped n r top saved m (popm n r m)
unfolding popm
popm-Popped zero r top saved m le e small h = record {
  regs = λ i. ground arith;
  sp = omega arith;
  sr = refl;
  ram = refl;
  isr_nesting = refl;
  task_current = refl;
  ctx = refl;
}
popm-Popped (suc n) r top saved m le e small h =
    let p = popm-Popped n (r - 1) (top - 2) saved m (omega arith) (omega arith) (omega arith) h.1 in
    record {
      regs = λ i. ground (arith, p.regs i, p.sp, p.ram, h.0);
      sp = omega (arith, p.sp);
      sr = p.sr;
      ram = p.ram;
      isr_nesting = p.isr_nesting;
      task_current = p.task_current;
      ctx = p.ctx;
    }
