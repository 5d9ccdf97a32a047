-- ===== src/Timer/Rising.antt =====
-- Lists of timers in the order of their ticks to go, which `timer_add` keeps.
use rados.Base.{
  ℕ, ◌≤◌, ◌≡◌, refl, inl, inr, true, false, List, [], ◌∷◌, arith, ◌==◌, ◌||◌, ltb, Bool-cases,
  erase, mem, Distinct,
}
use rados.Kernel.{Timer}
use rados.Timer.{place}

-- The ticks to go never fall along the list.
abbrev pub Rising : (ℕ → Timer) → ℕ → List ℕ → Type 0
Rising timers least [] = Unit {0}
Rising timers least (i ∷ rest) =
    (least ≤ (timers i).ticks_rem) × Rising timers (timers i).ticks_rem rest

pub Rising-same :
    (old new : ℕ → Timer) (least : ℕ) (xs : List ℕ)
    → ((i : ℕ) → mem i xs ≡ true → new i ≡ old i)
    → Rising old least xs
    → Rising new least xs
Rising-same old new least [] same r = tt
Rising-same old new least (x ∷ xs) same r =
    let e : new x ≡ old x = same x (ground arith) in
    rw e (r.0, Rising-same old new (old x).ticks_rem xs (λ i m. same i (ground arith)) r.1)

pub Rising-below :
    (timers : ℕ → Timer) (low high : ℕ) (xs : List ℕ)
    → low ≤ high
    → Rising timers high xs
    → Rising timers low xs
Rising-below timers low high [] h r = tt
Rising-below timers low high (x ∷ xs) h r = (omega (arith, r.0), r.1)

pub Rising-at :
    (timers : ℕ → Timer) (least : ℕ) (xs : List ℕ) (i : ℕ)
    → Rising timers least xs
    → mem i xs ≡ true
    → least ≤ (timers i).ticks_rem
Rising-at timers least [] i r m = absurd (ground arith)
Rising-at timers least (x ∷ xs) i r m = elim (Bool-cases (i == x)) [
  | inl same ↦ ground (arith, r.0)
  | inr other ↦ ground (arith, r.0, Rising-at timers (timers x).ticks_rem xs i r.1 (ground arith))
]

pub Rising-erase :
    (timers : ℕ → Timer) (least a : ℕ) (xs : List ℕ)
    → Rising timers least xs
    → Rising timers least (erase a xs)
Rising-erase timers least a [] r = tt
Rising-erase timers least a (x ∷ xs) r = elim (Bool-cases (x == a)) [
  | inl same ↦ rw same (Rising-below timers least (timers x).ticks_rem xs r.0 r.1)
  | inr other ↦ rw other (r.0, Rising-erase timers (timers x).ticks_rem a xs r.1)
]

module _ (timers : ℕ → Timer) (a : ℕ) where
  pub mem-place : (j : ℕ) (xs : List ℕ) → mem j (place timers a xs) ≡ (j == a || mem j xs)
  unfolding place
  mem-place j [] = ground arith
  mem-place j (x ∷ xs) = ground (arith, mem-place j xs)

  pub Rising-place :
      (least : ℕ) (xs : List ℕ)
      → least ≤ (timers a).ticks_rem
      → Rising timers least xs
      → Rising timers least (place timers a xs)
  unfolding place
  Rising-place least [] h r = (h, tt)
  Rising-place least (x ∷ xs) h r =
      elim (Bool-cases (ltb (timers a).ticks_rem (timers x).ticks_rem)) [
        | inl less ↦ rw less (h, (ground arith, r.1))
        | inr more ↦ rw more (r.0, Rising-place (timers x).ticks_rem xs (ground arith) r.1)
      ]

  pub Distinct-place : (xs : List ℕ) → mem a xs ≡ false → Distinct xs → Distinct (place timers a xs)
  unfolding place
  Distinct-place [] out d = (refl, tt)
  Distinct-place (x ∷ xs) out d =
      elim (Bool-cases (ltb (timers a).ticks_rem (timers x).ticks_rem)) [
        | inl less ↦ rw less (out, d)
        | inr more ↦
            rw more (ground (arith, mem-place x xs, d.0, out), Distinct-place xs (ground arith) d.1)
      ]
