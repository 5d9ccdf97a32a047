-- ===== src/Base/Lists.antt =====
-- Lists of addresses: occurrences, emptiness, removal.
use Prim.Native.Nat.{ℕ, zero, suc, ◌+◌, ◌-◌}
use mathlib.Core.Path.{◌≡◌, refl}
use mathlib.Core.Bool.{Bool, true, false, ◌||◌}
use mathlib.Core.List.{List, [], ◌∷◌, ◌++◌}
use native.Mathlib.Omega.{arith}
use mathlib.Core.Logic.{inl, inr}
use rados.Base.Tests.{◌==◌, if◌then◌else◌, Bool-cases}

module _ {ℓ} {A : Type ℓ} where
  abbrev pub length : List A → ℕ
  length [] = 0
  length (x ∷ xs) = suc (length xs)

  abbrev pub is_empty : List A → Bool
  is_empty [] = true
  is_empty (x ∷ xs) = false

  pub length-append : (xs ys : List A) → length (xs ++ ys) ≡ length xs + length ys
  length-append [] ys = omega arith
  length-append (x ∷ xs) ys = omega (arith, length-append xs ys)

-- How often an address stands in a list.
abbrev pub count : ℕ → List ℕ → ℕ
count a [] = 0
count a (head ∷ rest) = (if head == a then 1 else 0) + count a rest

-- The list without the first occurrence of an address.
abbrev pub erase : ℕ → List ℕ → List ℕ
erase a [] = []
erase a (x ∷ xs) = if x == a then xs else x ∷ erase a xs

pub count-append :
    (a : ℕ) (front back : List ℕ) → count a (front ++ back) ≡ count a front + count a back
count-append a [] back = omega arith
count-append a (head ∷ rest) back = ground (arith, count-append a rest back)

pub count-erase_self : (a : ℕ) (xs : List ℕ) → count a (erase a xs) ≡ count a xs - 1
count-erase_self a [] = refl
count-erase_self a (x ∷ xs) = ground (arith, count-erase_self a xs)

pub count-erase_ne :
    (a b : ℕ) (xs : List ℕ) → ((a == b) ≡ false) → count a (erase b xs) ≡ count a xs
count-erase_ne a b [] h = refl
count-erase_ne a b (x ∷ xs) h = ground (arith, count-erase_ne a b xs h)

-- Whether an address stands in a list.
abbrev pub mem : ℕ → List ℕ → Bool
mem a [] = false
mem a (x ∷ xs) = a == x || mem a xs

abbrev pub Distinct : List ℕ → Type 0
Distinct [] = Unit {0}
Distinct (x ∷ xs) = (mem x xs ≡ false) × Distinct xs

pub mem-append : (a : ℕ) (xs ys : List ℕ) → mem a (xs ++ ys) ≡ (mem a xs || mem a ys)
mem-append a [] ys = refl
mem-append a (x ∷ xs) ys = ground (arith, mem-append a xs ys)

pub mem-erase :
    (a b : ℕ) (xs : List ℕ)
    → Distinct xs
    → mem a (erase b xs) ≡ (if a == b then false else mem a xs)
mem-erase a b [] d = ground arith
mem-erase a b (x ∷ xs) d = ground (arith, mem-erase a b xs d.1, d.0)

pub Distinct-erase : (a : ℕ) (xs : List ℕ) → Distinct xs → Distinct (erase a xs)
Distinct-erase a [] d = tt
Distinct-erase a (x ∷ xs) d = elim (Bool-cases (x == a)) [
  | inl same ↦ rw same d.1
  | inr other ↦ rw other (ground (arith, mem-erase x a xs d.1, d.0), Distinct-erase a xs d.1)
]

pub erase-out : (a : ℕ) (xs : List ℕ) → mem a xs ≡ false → erase a xs ≡ xs
erase-out a [] out = refl
erase-out a (x ∷ xs) out = ground (arith, erase-out a xs)

pub erase-append :
    (a : ℕ) (front back : List ℕ)
    → mem a front ≡ false
    → erase a (front ++ a ∷ back) ≡ front ++ back
erase-append a [] back out = ground arith
erase-append a (x ∷ xs) back out = ground (arith, erase-append a xs back)

pub Distinct-append :
    (a : ℕ) (front back : List ℕ)
    → Distinct (front ++ a ∷ back)
    → (mem a front ≡ false) × (mem a back ≡ false) × Distinct (front ++ back)
Distinct-append a [] back d = (refl, d.0, d.1)
Distinct-append a (x ∷ xs) back d =
    let (no_front, no_back, rest) = Distinct-append a xs back d.1 in
    (
      ground (arith, d.0, mem-append x xs (a ∷ back)),
      no_back,
      (ground (arith, d.0, mem-append x xs (a ∷ back), mem-append x xs back), rest),
    )

pub Distinct-snoc : (xs : List ℕ) (a : ℕ) → Distinct xs → mem a xs ≡ false → Distinct (xs ++ a ∷ [])
Distinct-snoc [] a d out = (refl, tt)
Distinct-snoc (x ∷ xs) a d out =
    (ground (arith, d.0, mem-append x xs (a ∷ [])), Distinct-snoc xs a d.1 (ground arith))

-- A predicate of every element.
abbrev pub All {ℓ κ} : {A : Type ℓ} → (A → Type κ) → List A → Type κ
All P [] = Unit
All P (x ∷ xs) = P x × All P xs

module _ {ℓ} {A : Type ℓ} where
  abbrev pub get_or : List A → ℕ → A → A
  get_or [] i d = d
  get_or (x ∷ xs) zero d = x
  get_or (x ∷ xs) (suc i) d = get_or xs i d

  abbrev pub replicate : ℕ → A → List A
  replicate zero a = []
  replicate (suc n) a = a ∷ replicate n a

pub is_empty-append {ℓ} : {A : Type ℓ} (xs : List A) (a : A) → is_empty (xs ++ a ∷ []) ≡ false
is_empty-append [] a = refl
is_empty-append (x ∷ xs) a = refl
