-- ===== src/Port/Avr/Frame.antt =====
-- What the saved frame holds, and what comes back from it.
use rados.Base.{
  ℕ, ◌+◌, ◌-◌, ◌*◌, ◌%◌, ◌^◌, ◌≤◌, ◌<◌, ◌≡◌, refl, ap, suc, true, List, [], ◌∷◌, ◌++◌, map, arith,
  length, update, reverse, ◌==◌, if◌then◌else◌, mem,
}
use mathlib.Core.List.{reverse-cons}
use rados.Tasks.{push_down}
use rados.Port.Stack.{Holds}
use rados.Port.Avr.{
  Cpu, push, pop, pushes, pops, isr_pushes, restore_pops, return_from, restore_regs,
}

-- The state after pushing registers.
pub pushes_lem :
    (rs : List ℕ) (m : Cpu)
    → length rs ≤ m.sp
    → m.sp < 2 ^ 16
    → pushes rs m ≡ record m { ram = push_down m.sp (map m.regs rs) m.ram; sp = m.sp - length rs }
unfolding pushes push push_down
pushes_lem [] m room small = ground arith
pushes_lem (r ∷ rs) m room small =
    let e : (m.sp + (2 ^ 16 - 1)) % 2 ^ 16 ≡ m.sp - 1 = omega arith in
    rw e (
      ground
        (arith, pushes_lem rs (record m { sp = m.sp - 1; ram = update m.ram m.sp (m.regs r) })))

pub length-map : (f : ℕ → ℕ) (xs : List ℕ) → length (map f xs) ≡ length xs
length-map f [] = refl
length-map f (x ∷ xs) = ap suc (length-map f xs)

-- The registers after popping `bs` in the reverse of the order in which `rs` were pushed.
unfoldable pub loaded : List ℕ → List ℕ → (ℕ → ℕ) → ℕ → ℕ
loaded (r ∷ rs) (b ∷ bs) regs = update (loaded rs bs regs) r b
loaded rs bs regs = regs

pops-append : (rs qs : List ℕ) (m : Cpu) → pops (rs ++ qs) m ≡ pops qs (pops rs m)
unfolding pops
pops-append [] qs m = refl
pops-append (r ∷ rs) qs m = pops-append rs qs (pop r m)

pub pops_lem :
    (rs bs : List ℕ) (top : ℕ) (m : Cpu)
    → length bs ≡ length rs
    → m.sp + length rs ≡ top
    → top < 2 ^ 16
    → Holds m.ram top bs
    → pops (reverse rs) m ≡ record m { regs = loaded rs bs m.regs; sp = top }
unfolding pops loaded
pops_lem [] [] top m same e small h = ground arith
pops_lem [] (b ∷ bs) top m same e small h = absurd (omega arith)
pops_lem (r ∷ rs) [] top m same e small h = absurd (omega arith)
pops_lem (r ∷ rs) (b ∷ bs) top m same e small h =
    let ih = pops_lem rs bs (top - 1) m (omega arith) (omega arith) (omega arith) h.1 in
    let back : (top - 1 + 1) % 2 ^ 16 ≡ top = omega arith in
    rw (reverse-cons, pops-append, ih) (rw (back, h.0) refl)

-- A register that was pushed comes back.
pub loaded-map :
    (rs : List ℕ) (saved regs : ℕ → ℕ) (r : ℕ)
    → loaded rs (map saved rs) regs r ≡ (if mem r rs then saved r else regs r)
unfolding loaded
loaded-map [] saved regs r = refl
loaded-map (a ∷ rs) saved regs r = ground (arith, loaded-map rs saved regs r)

-- The CPU `m'` after a task came back from the frame under `top`: return address, r16, SREG and the
-- bytes of the other registers.
pub record Restored (m : Cpu) (top lo hi r16 flags : ℕ) (bs : List ℕ) (m' : Cpu) : Type 0 where
  pub regs : (i : ℕ) → m'.regs i ≡ (if i == 16 then r16 else loaded isr_pushes bs m.regs i)
  pub pc : m'.pc ≡ hi * 2 ^ 8 + lo
  pub sp : m'.sp ≡ top
  pub sreg : m'.sreg ≡ flags
  pub ram : m'.ram ≡ m.ram
  pub isr_nesting : m'.isr_nesting ≡ m.isr_nesting
  pub task_current : m'.task_current ≡ m.task_current
  pub ctx : m'.ctx ≡ m.ctx

reversed : restore_pops ≡ reverse isr_pushes
unfolding restore_pops isr_pushes
reversed = refl

pub length-isr_pushes : length isr_pushes ≡ 31
unfolding isr_pushes
length-isr_pushes = refl

module _ (m : Cpu) (top lo hi r16 flags : ℕ) (bs : List ℕ) (whole : length bs ≡ 31)
    (below : m.sp + 35 ≡ top) (small : top < 2 ^ 16) (byte : flags < 2 ^ 8)
    (frame : Holds m.ram top (lo ∷ hi ∷ r16 ∷ flags ∷ bs)) where
  popped : pops restore_pops m ≡ record m { regs = loaded isr_pushes bs m.regs; sp = m.sp + 31 }
  popped = rw reversed (
      pops_lem isr_pushes bs (m.sp + 31) m (omega (arith, length-isr_pushes))
        (omega (arith, length-isr_pushes)) (omega arith)
        (rw (let e : m.sp + 31 ≡ top - 1 - 1 - 1 - 1 = omega arith in e) frame.1.1.1.1))

  pub restore_regs-Restored : Restored m top lo hi r16 flags bs (restore_regs m)
  unfolding restore_regs pop return_from
  restore_regs-Restored =
      let w32 : (m.sp + 31 + 1) % 2 ^ 16 ≡ top - 3 = omega arith in
      let w33 : (top - 3 + 1) % 2 ^ 16 ≡ top - 2 = omega arith in
      let w34 : (top - 2 + 1) % 2 ^ 16 ≡ top - 1 = omega arith in
      let w35 : (top - 2 + 2) % 2 ^ 16 ≡ top = omega arith in
      let a1 : m.ram (top - 1) ≡ hi = frame.1.0 in
      let a2 : m.ram (top - 2) ≡ r16 =
        rw (let e : top - 2 ≡ top - 1 - 1 = omega arith in e) frame.1.1.0 in
      let a3 : m.ram (top - 3) ≡ flags =
        rw (let e : top - 3 ≡ top - 1 - 1 - 1 = omega arith in e) frame.1.1.1.0 in
      rw (popped, w32, a3, w33, w34, w35, a1, a2, frame.0)
        (record {
          regs = λ i. ground arith;
          pc = ground arith;
          sp = ground arith;
          sreg = ground arith;
          ram = ground arith;
          isr_nesting = ground arith;
          task_current = ground arith;
          ctx = ground arith;
        })

-- The registers that were pushed first come back whatever lies below them.
pub loaded-append :
    (rs qs : List ℕ) (saved : ℕ → ℕ) (cs : List ℕ) (regs : ℕ → ℕ) (r : ℕ)
    → mem r rs ≡ true
    → loaded (rs ++ qs) (map saved rs ++ cs) regs r ≡ saved r
unfolding loaded
loaded-append [] qs saved cs regs r h = cc
loaded-append (a ∷ rs) qs saved cs regs r h = ground (arith, loaded-append rs qs saved cs regs r)
