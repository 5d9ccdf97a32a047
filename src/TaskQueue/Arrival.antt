-- ===== src/TaskQueue/Arrival.antt =====
-- What a task queue promises: a list of waiting tasks in the order of their arrival, of which the first
-- of the highest priority is served.
use rados.Base.{
  ℕ, ◌≤◌, ◌<◌, ◌≡◌, refl, ◌∙◌, sym, false, Option, none, some, List, [], ◌∷◌, ◌++◌, arith, ◌==◌,
  ltb, if◌then◌else◌, erase, inl, inr, Bool-cases, Option-cases,
}
use rados.Kernel.{Kernel}
use rados.TaskQueue.{enqueued, removed}
use rados.TaskQueue.Dequeue.{IsTop, IsIdle}

-- The tasks of one priority, in their order.
unfoldable pub level : (ℕ → ℕ) → ℕ → List ℕ → List ℕ
level prio p [] = []
level prio p (x ∷ xs) = if prio x == p then x ∷ level prio p xs else level prio p xs

-- The first task of the highest priority.
unfoldable pub pick : (ℕ → ℕ) → List ℕ → Option ℕ
pick prio [] = none
pick prio (x ∷ xs) = elim (pick prio xs) [
  | none ↦ some x
  | some y ↦ if ltb (prio x) (prio y) then some y else some x
]

pub pick-nil : (prio : ℕ → ℕ) → pick prio [] ≡ none
unfolding pick
pick-nil prio = refl

-- The list without the task that was served.
abbrev pub leave : Option ℕ → List ℕ → List ℕ
leave none xs = xs
leave (some t) xs = erase t xs

abbrev pub prio_of : Kernel → ℕ → ℕ
prio_of k t = (k.tasks t).prio_current

-- Queue `q` holds the tasks `xs`, which arrived in this order.
abbrev pub Arrived : Kernel → ℕ → List ℕ → Type 0
Arrived k q xs = (p : ℕ) → (k.queues q).tasks p ≡ level (prio_of k) p xs

pub level-append :
    (prio : ℕ → ℕ) (p : ℕ) (xs : List ℕ) (t : ℕ)
    → level prio p (xs ++ t ∷ [])
      ≡ (if prio t == p then level prio p xs ++ t ∷ [] else level prio p xs)
unfolding level
level-append prio p [] t = ground arith
level-append prio p (x ∷ xs) t = ground (arith, level-append prio p xs t)

pub level-same :
    (prio prio' : ℕ → ℕ) (p : ℕ) (xs : List ℕ)
    → ((t : ℕ) → prio' t ≡ prio t)
    → level prio' p xs ≡ level prio p xs
unfolding level
level-same prio prio' p [] same = refl
level-same prio prio' p (x ∷ xs) same = ground (arith, same x, level-same prio prio' p xs same)

level-erase_ne :
    (prio : ℕ → ℕ) (p t : ℕ) (xs : List ℕ)
    → (prio t == p) ≡ false
    → level prio p (erase t xs) ≡ level prio p xs
unfolding level
level-erase_ne prio p t [] ne = refl
level-erase_ne prio p t (x ∷ xs) ne = ground (arith, level-erase_ne prio p t xs ne)

level-erase_head :
    (prio : ℕ → ℕ) (p t : ℕ) (xs left : List ℕ)
    → prio t ≡ p
    → level prio p xs ≡ t ∷ left
    → level prio p (erase t xs) ≡ left
unfolding level
level-erase_head prio p t [] left same e = cc
level-erase_head prio p t (x ∷ xs) left same e = elim (Bool-cases (x == t)) [
  | inl here ↦ rw here (ground arith)
  | inr other ↦ rw other (ground (arith, level-erase_head prio p t xs left))
]

-- No task is above priority `p`.
abbrev Below : (ℕ → ℕ) → ℕ → List ℕ → Type 0
Below prio p xs = (p' : ℕ) → p < p' → level prio p' xs ≡ []

Below-rest :
    (prio : ℕ → ℕ) (p x : ℕ) (xs : List ℕ) → Below prio p (x ∷ xs) → Below prio p xs × (prio x ≤ p)
unfolding level
Below-rest prio p x xs above = (λ p' h. ground (arith, above p'), ground (arith, above (prio x)))

-- Then none is served from above it.
pick-le :
    (prio : ℕ → ℕ) (p : ℕ) (xs : List ℕ)
    → Below prio p xs
    → (y : ℕ) → pick prio xs ≡ some y
    → prio y ≤ p
unfolding pick
pick-le prio p [] above y e = cc
pick-le prio p (x ∷ xs) above y e =
    let (rest, low) = Below-rest prio p x xs above in
    elim (Option-cases (pick prio xs)) [
      | inl idle ↦ ground arith
      | inr (z, top) ↦ ground (arith, pick-le prio p xs rest z top)
    ]

-- The first of the highest level in use is served.
pick-head :
    (prio : ℕ → ℕ) (p t : ℕ) (xs left : List ℕ)
    → prio t ≡ p
    → level prio p xs ≡ t ∷ left
    → Below prio p xs
    → pick prio xs ≡ some t
unfolding level pick
pick-head prio p t [] left same e above = cc
pick-head prio p t (x ∷ xs) left same e above =
    let (rest, low) = Below-rest prio p x xs above in
    elim (Option-cases (pick prio xs)) [
      | inl idle ↦ ground (arith, pick-head prio p t xs left)
      | inr (z, top) ↦ ground (arith, pick-head prio p t xs left, pick-le prio p xs rest z top)
    ]

level-none : (prio : ℕ → ℕ) (xs : List ℕ) → ((p : ℕ) → level prio p xs ≡ []) → xs ≡ []
unfolding level
level-none prio [] none_left = refl
level-none prio (x ∷ xs) none_left = ground (arith, none_left (prio x))

module _ (k : Kernel) (q : ℕ) (xs : List ℕ) (a : Arrived k q xs) where
  pub enqueued-Arrived : (t : ℕ) → Arrived (enqueued q t k) q (xs ++ t ∷ [])
  unfolding enqueued
  enqueued-Arrived t p =
      let same : (b : ℕ) → prio_of (enqueued q t k) b ≡ prio_of k b = λ b. ground arith in
      ground (
        arith,
        a p,
        level-append (prio_of k) p xs t,
        level-same (prio_of k) (prio_of (enqueued q t k)) p (xs ++ t ∷ []) same,
      )

  pub removed-Arrived :
      {t p : ℕ} {left : List ℕ} → IsTop k q t p left → Arrived (removed q p left t k) q (erase t xs)
  unfolding removed
  removed-Arrived {t} {p} {left} i p' =
      let same : (b : ℕ) → prio_of (removed q p left t k) b ≡ prio_of k b = λ b. ground arith in
      let head = level-erase_head (prio_of k) p t xs left i.prio (sym (a p) ∙ i.heads) in
      ground (
        arith,
        a p',
        i.prio,
        head,
        level-erase_ne (prio_of k) p' t xs,
        level-same (prio_of k) (prio_of (removed q p left t k)) p' (erase t xs) same,
      )

  pub pick-top : {t p : ℕ} {left : List ℕ} → IsTop k q t p left → pick (prio_of k) xs ≡ some t
  pick-top {t} {p} {left} i =
      pick-head (prio_of k) p t xs left i.prio (sym (a p) ∙ i.heads)
        (λ p' h. sym (a p') ∙ i.highest p' h)

  pub idle-nil : IsIdle k q → xs ≡ []
  idle-nil i = level-none (prio_of k) xs (λ p. sym (a p) ∙ i p)
