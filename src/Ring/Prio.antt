-- ===== src/Ring/Prio.antt =====
-- The priority list of source/list.h: `listprio_append`, `listprio_detachfirst`.
use rados.Base.{
  ℕ, zero, suc, ◌≤◌, ◌<◌, ◌≡◌, refl, sym, false, Option, none, some, List, [], ◌∷◌, ◌++◌, arith,
  ◌==◌, ◌&&◌, not, leb, if◌then◌else◌, length, mem, All, Bool-cases, inl, inr,
}
use rados.Ring.{Links, list_put_in_between, list_detachfirst}
use rados.Ring.Seg.{Seg, IsRing, last_of, first_of}
use rados.Ring.Insert.{list_put_in_between-IsRing}

-- The loop of `listprio_append`, on fuel: `prio` is the field of each element.
prio_walk : ℕ → (ℕ → ℕ) → ℕ → ℕ → ℕ → ℕ → Links → Option (ℕ × ℕ)
prio_walk zero prio h elem l r m = none
prio_walk (suc fuel) prio h elem l r m =
    let rest = prio_walk fuel prio h elem r (m.next r) m in
    if not (r == h) && leb (prio elem) (prio r) then rest else some (l, r)

pub listprio_append : ℕ → (ℕ → ℕ) → ℕ → ℕ → Links → Option Links
unfolding prio_walk list_put_in_between
listprio_append fuel prio h elem m = elim (prio_walk fuel prio h elem h (m.next h) m) [
  | none ↦ none
  | some (l, r) ↦ some (list_put_in_between elem l r m)
]

pub listprio_detachfirst : ℕ → Links → Option ℕ × Links
unfolding list_detachfirst
listprio_detachfirst l m = list_detachfirst l m

-- The elements whose priority is not below `p`, as far as they go, and what follows them.
abbrev urgent : (ℕ → ℕ) → ℕ → List ℕ → List ℕ
urgent prio p [] = []
urgent prio p (x ∷ xs) = if leb p (prio x) then x ∷ urgent prio p xs else []

abbrev less_urgent : (ℕ → ℕ) → ℕ → List ℕ → List ℕ
less_urgent prio p [] = []
less_urgent prio p (x ∷ xs) = if leb p (prio x) then less_urgent prio p xs else x ∷ xs

urgent-append :
    (prio : ℕ → ℕ) (p : ℕ) (xs : List ℕ) → urgent prio p xs ++ less_urgent prio p xs ≡ xs
urgent-append prio p [] = refl
urgent-append prio p (x ∷ xs) = ground (arith, urgent-append prio p xs)

prio_walk-urgent :
    (fuel : ℕ) (prio : ℕ → ℕ) (h elem a : ℕ) (xs : List ℕ) (m : Links)
    → Seg m a xs h
    → mem h xs ≡ false
    → length xs < fuel
    → prio_walk fuel prio h elem a (m.next a) m
      ≡ some (last_of a (urgent prio (prio elem) xs), first_of (less_urgent prio (prio elem) xs) h)
unfolding prio_walk
prio_walk-urgent zero prio h elem a xs m s o f = absurd (omega arith)
prio_walk-urgent (suc fuel) prio h elem a [] m s o f = ground arith
prio_walk-urgent (suc fuel) prio h elem a (x ∷ xs) m s o f =
    ground (arith, prio_walk-urgent fuel prio h elem x xs m s.2)

-- Priorities fall along the list, and an equal one may follow.
abbrev pub Falling : (ℕ → ℕ) → ℕ → List ℕ → Type 0
Falling prio p [] = Unit {0}
Falling prio p (x ∷ xs) = (prio x ≤ p) × Falling prio (prio x) xs

Falling-insert :
    (prio : ℕ → ℕ) (top e : ℕ) (xs : List ℕ)
    → prio e ≤ top
    → Falling prio top xs
    → Falling prio top (urgent prio (prio e) xs ++ e ∷ less_urgent prio (prio e) xs)
Falling-insert prio top e [] le f = (le, tt)
Falling-insert prio top e (x ∷ xs) le f = elim (Bool-cases (leb (prio e) (prio x))) [
  | inl more ↦ rw more (f.0, Falling-insert prio (prio x) e xs (ground arith) f.1)
  | inr less ↦ rw less (le, (ground arith, f.1))
]

urgent-All : (prio : ℕ → ℕ) (p : ℕ) (xs : List ℕ) → All (λ x. p ≤ prio x) (urgent prio p xs)
urgent-All prio p [] = tt
urgent-All prio p (x ∷ xs) = elim (Bool-cases (leb p (prio x))) [
  | inl more ↦ rw more (ground arith, urgent-All prio p xs)
  | inr less ↦ rw less tt
]

Falling-All :
    (prio : ℕ → ℕ) (top p : ℕ) (xs : List ℕ)
    → top < p
    → Falling prio top xs
    → All (λ x. prio x < p) xs
Falling-All prio top p [] lt f = tt
Falling-All prio top p (x ∷ xs) lt f =
    (omega arith, Falling-All prio (prio x) p xs (omega arith) f.1)

less_urgent-All :
    (prio : ℕ → ℕ) (top p : ℕ) (xs : List ℕ)
    → Falling prio top xs
    → All (λ x. prio x < p) (less_urgent prio p xs)
less_urgent-All prio top p [] f = tt
less_urgent-All prio top p (x ∷ xs) f = elim (Bool-cases (leb p (prio x))) [
  | inl more ↦ rw more (less_urgent-All prio (prio x) p xs f.1)
  | inr less ↦ rw less (ground arith, Falling-All prio (prio x) p xs (ground arith) f.1)
]

-- In a ring whose priorities never rise along it, with fuel above its length, `listprio_append` of
-- an element that is outside the ring ends: the element stands behind all whose priority is at
-- least its own and before all whose priority is lower, and the priorities still never rise.
pub listprio_append-Falling :
    (fuel : ℕ) (prio : ℕ → ℕ) (h elem top : ℕ) (xs : List ℕ) (m : Links)
    → IsRing m h xs
    → mem elem (h ∷ xs) ≡ false
    → prio elem ≤ top
    → Falling prio top xs
    → length xs < fuel
    → (m' : Links) × (before : List ℕ) × (after : List ℕ) × (listprio_append fuel prio h elem m
        ≡ some m')
      × (xs ≡ before ++ after)
      × IsRing m' h (before ++ elem ∷ after)
      × All (λ x. prio elem ≤ prio x) before
      × All (λ x. prio x < prio elem) after
      × Falling prio top (before ++ elem ∷ after)
unfolding listprio_append
listprio_append-Falling fuel prio h elem top xs m r out le f more =
    let before = urgent prio (prio elem) xs in
    let after = less_urgent prio (prio elem) xs in
    let parts = urgent-append prio (prio elem) xs in
    (
      list_put_in_between elem (last_of h before) (first_of after h) m,
      before,
      after,
      rw (prio_walk-urgent fuel prio h elem h xs m r.links r.distinct.0 more, listprio_append) refl,
      sym parts,
      list_put_in_between-IsRing m h elem before after (rw parts r) (rw parts out),
      urgent-All prio (prio elem) xs,
      less_urgent-All prio top (prio elem) xs f,
      Falling-insert prio top elem xs le f,
    )
