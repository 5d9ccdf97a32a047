-- ===== src/Port/Atomic/Cells.antt =====
-- Cells of one and two bytes in memory, and what a write changes.
use rados.Base.{
  ℕ, ◌+◌, ◌*◌, ◌/◌, ◌%◌, ◌^◌, ◌<◌, ◌≡◌, refl, ◌∙◌, ap, fun_ext, ◌⊎◌, inl, inr, true, false, arith,
  ◌==◌, ◌||◌, ◌&&◌, if◌then◌else◌, Bool-cases,
}
use rados.Kernel.{Kernel}
use rados.Port.Atomic.{cell8, cell16, put8, put16}

-- Memory is bytes.
abbrev pub AreBytes : Kernel → Type 0
AreBytes k = (a : ℕ) → k.memory a < 2 ^ 8

-- The numbers of a cell.
abbrev pub values : ℕ → ℕ
values size = if size == 1 then 2 ^ 8 else 2 ^ 16

abbrev pub cell : ℕ → ℕ → Kernel → ℕ
cell size ptr k = if size == 1 then cell8 ptr k else cell16 ptr k

-- Only the cell of `size` bytes at `ptr` changed, to `v`.
pub record Changed (size ptr v : ℕ) (k k' : Kernel) : Type 0 where
  pub value : cell size ptr k' ≡ v
  pub others :
      (a : ℕ) → (a == ptr || (size == 2 && a == ptr + 1)) ≡ false → k'.memory a ≡ k.memory a
  pub rest : k' ≡ record k { memory = k'.memory }
  pub bytes : AreBytes k → AreBytes k'

pub Changed-put8 : (ptr v : ℕ) (k : Kernel) → Changed 1 ptr (v % 2 ^ 8) k (put8 ptr v k)
unfolding put8
Changed-put8 ptr v k = record {
  value = ground arith;
  others = λ a outside. ground arith;
  rest = refl;
  bytes = λ old a. ground (arith, old a);
}

pub Changed-put16 : (ptr v : ℕ) (k : Kernel) → Changed 2 ptr (v % 2 ^ 16) k (put16 ptr v k)
unfolding put16
Changed-put16 ptr v k = record {
  value = value;
  others = λ a outside. ground arith;
  rest = refl;
  bytes = λ old a. ground (arith, old a);
}
  where
    low : (put16 ptr v k).memory ptr ≡ v % 2 ^ 8
    low = ground arith

    high : (put16 ptr v k).memory (ptr + 1) ≡ v / 2 ^ 8 % 2 ^ 8
    high = ground arith

    value : cell 2 ptr (put16 ptr v k) ≡ v % 2 ^ 16
    value = omega (arith, low, high)

abbrev set_memory : (ℕ → ℕ) → Kernel → Kernel
set_memory m k = record k { memory = m }

-- Two bytes are read back from their word.
bytes_of_word :
    (a b c d : ℕ) → a < 2 ^ 8 → c < 2 ^ 8 → a + 2 ^ 8 * b ≡ c + 2 ^ 8 * d → (a ≡ c) × (b ≡ d)
bytes_of_word a b c d ha hc e = (omega arith, omega arith)

-- A cell of bytes says what its bytes are.
bytes_of_cell :
    {size : ℕ}
    → (ptr : ℕ) → (k k' : Kernel) → (size ≡ 1) ⊎ (size ≡ 2)
    → AreBytes k
    → AreBytes k'
    → cell size ptr k ≡ cell size ptr k'
    → (a : ℕ) → (a == ptr || (size == 2 && a == ptr + 1)) ≡ true
    → k.memory a ≡ k'.memory a
bytes_of_cell ptr k k' (inl one) old new e a at =
    let whole : k.memory ptr ≡ k'.memory ptr = ground arith in
    let here : a ≡ ptr = ground arith in rw here whole
bytes_of_cell ptr k k' (inr two) old new e a at =
    let word : cell16 ptr k ≡ cell16 ptr k' = ground arith in
    let both =
      bytes_of_word (k.memory ptr) (k.memory (ptr + 1)) (k'.memory ptr) (k'.memory (ptr + 1))
        (old ptr) (new ptr) word in
    let here : (a ≡ ptr) ⊎ (a ≡ ptr + 1) = ground arith in
    elim here [ inl low ↦ rw low both.0 | inr high ↦ rw high both.1 ]

-- Two writes of a cell of bytes, the second of its first value, change nothing.
pub undone :
    {size ptr v : ℕ} {k k1 k2 : Kernel}
    → (size ≡ 1) ⊎ (size ≡ 2)
    → AreBytes k
    → Changed size ptr v k k1
    → Changed size ptr (cell size ptr k) k1 k2
    → k2 ≡ k
undone {size} {ptr} {k = k} {k1 = k1} {k2 = k2} known bytes c1 c2 =
    c2.rest ∙ ap (set_memory k2.memory) c1.rest ∙ ap (λ m. set_memory m k) (fun_ext same)
  where
    same : (a : ℕ) → k2.memory a ≡ k.memory a
    same a = elim (Bool-cases (a == ptr || (size == 2 && a == ptr + 1))) [
      | inl at ↦ bytes_of_cell ptr k2 k known (c2.bytes (c1.bytes bytes)) bytes c2.value a at
      | inr outside ↦ c2.others a outside ∙ c1.others a outside
    ]
