-- ===== src/Port/Atomic/Laws.antt =====
-- What the atomic accesses do to their cell, and that they leave the interrupt state as it was.
use rados.Base.{
  ℕ, ◌+◌, ◌-◌, ◌%◌, ◌^◌, ◌<◌, ◌≡◌, refl, ◌∙◌, sym, ap, subst, ◌≢◌, ◌⊎◌, inl, inr, Bool, true, false,
  arith, ◌==◌, Bool-cases,
}
use rados.Kernel.{Kernel}
use rados.Kernel.Run.{Outcome, M, ok, ◌>>◌}
use rados.Port.Atomic.Cells.{AreBytes, values, cell, Changed, Changed-put8, Changed-put16, undone}
use rados.Port.Atomic.{
  cell16, put8, put16, os_atomic_inc_load, os_atomic_dec_load, os_atomic_cmp_exch,
}

-- An access to a cell of `size` bytes that gives `v` and leaves it in the cell.
abbrev pub Writes : M ℕ → ℕ → ℕ → Kernel → ℕ → Type 0
Writes access size ptr k v = (k' : Kernel) × (access k ≡ ok v k') × Changed size ptr v k k'

written :
    {size ptr v : ℕ} {k : Kernel}
    → (access : M ℕ) → (k' : Kernel) → access k ≡ ok (cell size ptr k') k'
    → Changed size ptr v k k'
    → Writes access size ptr k v
written access k' runs changed = (k', runs ∙ ap (λ w. ok w k') changed.value, changed)

module _ (ptr : ℕ) (k : Kernel) where
  inc8 : Writes (os_atomic_inc_load 1 ptr) 1 ptr k ((cell 1 ptr k + 1) % values 1)
  unfolding os_atomic_inc_load put8
  inc8 =
      written (os_atomic_inc_load 1 ptr) (put8 ptr (cell 1 ptr k + 1) k) refl
        (Changed-put8 ptr (cell 1 ptr k + 1) k)

  inc16 : Writes (os_atomic_inc_load 2 ptr) 2 ptr k ((cell 2 ptr k + 1) % values 2)
  unfolding os_atomic_inc_load put16
  inc16 =
      written (os_atomic_inc_load 2 ptr) (put16 ptr (cell 2 ptr k + 1) k) refl
        (Changed-put16 ptr (cell 2 ptr k + 1) k)

  dec8 : Writes (os_atomic_dec_load 1 ptr) 1 ptr k ((cell 1 ptr k + (values 1 - 1)) % values 1)
  unfolding os_atomic_dec_load put8
  dec8 =
      written (os_atomic_dec_load 1 ptr) (put8 ptr (cell 1 ptr k + 255) k) refl
        (Changed-put8 ptr (cell 1 ptr k + 255) k)

  dec16 : Writes (os_atomic_dec_load 2 ptr) 2 ptr k ((cell 2 ptr k + (values 2 - 1)) % values 2)
  unfolding os_atomic_dec_load put16
  dec16 =
      written (os_atomic_dec_load 2 ptr) (put16 ptr (cell 2 ptr k + 65535) k) refl
        (Changed-put16 ptr (cell 2 ptr k + 65535) k)

module _ (size ptr : ℕ) (known : (size ≡ 1) ⊎ (size ≡ 2)) (k : Kernel) where
  pub inc_load-Writes :
      Writes (os_atomic_inc_load size ptr) size ptr k ((cell size ptr k + 1) % values size)
  inc_load-Writes = elim known [
    | inl one ↦
        subst (λ s. Writes (os_atomic_inc_load s ptr) s ptr k ((cell s ptr k + 1) % values s))
          (sym one) (inc8 ptr k)
    | inr two ↦
        subst (λ s. Writes (os_atomic_inc_load s ptr) s ptr k ((cell s ptr k + 1) % values s))
          (sym two) (inc16 ptr k)
  ]

  pub dec_load-Writes :
      Writes
        (os_atomic_dec_load size ptr)
        size
        ptr
        k
        ((cell size ptr k + (values size - 1)) % values size)
  dec_load-Writes = elim known [
    | inl one ↦
        subst
          (λ s.
            Writes (os_atomic_dec_load s ptr) s ptr k ((cell s ptr k + (values s - 1)) % values s))
          (sym one) (dec8 ptr k)
    | inr two ↦
        subst
          (λ s.
            Writes (os_atomic_dec_load s ptr) s ptr k ((cell s ptr k + (values s - 1)) % values s))
          (sym two) (dec16 ptr k)
  ]

-- Counting up and down again, where the cell overflows too.
counted_back :
    {size v : ℕ}
    → (ptr : ℕ) → (k : Kernel) → (size ≡ 1) ⊎ (size ≡ 2)
    → AreBytes k
    → v ≡ (cell size ptr k + 1) % values size
    → (v + (values size - 1)) % values size ≡ cell size ptr k
counted_back {v = v} ptr k (inl one) bytes e =
    let low : k.memory ptr < 256 = bytes ptr in
    let counted : v ≡ (cell 1 ptr k + 1) % 256 =
      subst (λ s. v ≡ (cell s ptr k + 1) % values s) one e in
    rw one (omega arith)
counted_back {v = v} ptr k (inr two) bytes e =
    let low : k.memory ptr < 256 = bytes ptr in
    let high : k.memory (ptr + 1) < 256 = bytes (ptr + 1) in
    let counted : v ≡ (cell 2 ptr k + 1) % 65536 =
      subst (λ s. v ≡ (cell s ptr k + 1) % values s) two e in
    rw two (omega arith)

-- In memory of bytes, for a cell of one or two bytes, `os_atomic_dec_load` after
-- `os_atomic_inc_load` gives the value before both and leaves the whole state as it was before
-- both, also where the counter overflows.
pub os_atomic_dec_load-os_atomic_inc_load :
    (size ptr : ℕ)
    → (size ≡ 1) ⊎ (size ≡ 2)
    → (k : Kernel) → AreBytes k
    → (os_atomic_inc_load size ptr >> os_atomic_dec_load size ptr) k ≡ ok (cell size ptr k) k
os_atomic_dec_load-os_atomic_inc_load size ptr known k bytes =
    let (k1, inc, c1) = inc_load-Writes size ptr known k in
    let (k2, dec, c2) = dec_load-Writes size ptr known k1 in
    let back : (cell size ptr k1 + (values size - 1)) % values size ≡ cell size ptr k =
      counted_back ptr k known bytes c1.value in
    rw (inc, dec, back)
      (ap (ok (cell size ptr k))
        (undone known bytes c1 (subst (λ v. Changed size ptr v k1 k2) back c2)))

-- What `os_atomic_cmp_exch` promises of a word at `ptr` and the expected value at `expected`.
data Exchanged (ptr expected val : ℕ) (k : Kernel) : Outcome Bool → Type 0 where
  done :
      {k' : Kernel}
      → cell16 ptr k ≡ cell16 expected k
      → Changed 2 ptr (val % 2 ^ 16) k k'
      → Exchanged ptr expected val k (ok false k')
  differs :
      {k' : Kernel}
      → cell16 ptr k ≢ cell16 expected k
      → Changed 2 expected (cell16 ptr k % 2 ^ 16) k k'
      → Exchanged ptr expected val k (ok true k')

-- For a cell of two bytes `os_atomic_cmp_exch` returns false where the word is the expected one,
-- and has written the new value, and else true, and has written the word it found over the expected
-- one. It writes no other byte and leaves the interrupt state as it was.
os_atomic_cmp_exch-Exchanged :
    (ptr expected val : ℕ)
    → (k : Kernel) → Exchanged ptr expected val k (os_atomic_cmp_exch 2 ptr expected val k)
unfolding os_atomic_cmp_exch put16
os_atomic_cmp_exch-Exchanged ptr expected val k =
    elim (Bool-cases (cell16 ptr k == cell16 expected k)) [
      | inl same ↦ rw same (done (ground arith) (Changed-put16 ptr val k))
      | inr other ↦ rw other (differs (ground arith) (Changed-put16 expected (cell16 ptr k) k))
    ]
