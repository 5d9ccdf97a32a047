-- ===== src/Ring/Seg.antt =====
-- What a ring of links stands for: the list of its elements.
use rados.Base.{ℕ, ◌≡◌, true, false, List, [], ◌∷◌, ◌++◌, arith, ◌==◌, ◌||◌, mem, Distinct}
use rados.Ring.{Links}

-- From `a` the pointers lead through `xs` to `b`, forwards and backwards.
abbrev pub Seg : Links → ℕ → List ℕ → ℕ → Type 0
Seg m a [] b = (m.next a ≡ b) × (m.prev b ≡ a)
Seg m a (x ∷ xs) b = (m.next a ≡ x) × (m.prev x ≡ a) × Seg m x xs b

-- `l` heads a ring of the distinct elements `xs`.
pub record IsRing (m : Links) (l : ℕ) (xs : List ℕ) : Type 0 where
  pub links : Seg m l xs l
  pub distinct : Distinct (l ∷ xs)

-- The links of every other node are as they were.
abbrev pub SameOutside : List ℕ → Links → Links → Type 0
SameOutside xs m m' = (a : ℕ) → mem a xs ≡ false → (m'.next a ≡ m.next a) × (m'.prev a ≡ m.prev a)

abbrev pub last_of : ℕ → List ℕ → ℕ
last_of a [] = a
last_of a (x ∷ xs) = last_of x xs

abbrev pub first_of : List ℕ → ℕ → ℕ
first_of [] b = b
first_of (y ∷ ys) b = y

pub ne-first_of :
    (c : ℕ) (ys : List ℕ) (b : ℕ)
    → mem c ys ≡ false
    → (c == b) ≡ false
    → (c == first_of ys b) ≡ false
ne-first_of c [] b h k = k
ne-first_of c (y ∷ ys) b h k = ground arith

pub ne-last_of : (c a : ℕ) (xs : List ℕ) → mem c (a ∷ xs) ≡ false → (c == last_of a xs) ≡ false
ne-last_of c a [] h = ground arith
ne-last_of c a (x ∷ xs) h = ne-last_of c x xs (ground arith)

pub Seg-first : (m : Links) (a : ℕ) (ys : List ℕ) (b : ℕ) → Seg m a ys b → m.next a ≡ first_of ys b
Seg-first m a [] b s = s.0
Seg-first m a (y ∷ ys) b s = s.0

pub Seg-last : (m : Links) (a : ℕ) (xs : List ℕ) (b : ℕ) → Seg m a xs b → m.prev b ≡ last_of a xs
Seg-last m a [] b s = s.1
Seg-last m a (x ∷ xs) b s = Seg-last m x xs b s.2

-- A segment reads `next` at `a` and `xs`, and `prev` at `xs` and `b`.
pub Seg-frame :
    (m m' : Links) (a : ℕ) (xs : List ℕ) (b : ℕ)
    → ((c : ℕ) → mem c (a ∷ xs) ≡ true → m'.next c ≡ m.next c)
    → ((c : ℕ) → (c == b || mem c xs) ≡ true → m'.prev c ≡ m.prev c)
    → Seg m a xs b
    → Seg m' a xs b
Seg-frame m m' a [] b hn hp s = ground (arith, hn a, hp b)
Seg-frame m m' a (x ∷ xs) b hn hp s = (
  ground (arith, hn a),
  ground (arith, hp x),
  Seg-frame m m' x xs b (λ c i. hn c (ground arith)) (λ c i. hp c (ground arith)) s.2,
)

-- A segment split at an element.
pub Seg-split :
    (m : Links) (a : ℕ) (xs : List ℕ) (e : ℕ) (ys : List ℕ) (b : ℕ)
    → Seg m a (xs ++ e ∷ ys) b
    → Seg m a xs e × Seg m e ys b
Seg-split m a [] e ys b s = ((s.0, s.1), s.2)
Seg-split m a (x ∷ xs) e ys b s = let r = Seg-split m x xs e ys b s.2 in ((s.0, s.1, r.0), r.1)

pub Seg-join :
    (m : Links) (a : ℕ) (xs : List ℕ) (e : ℕ) (ys : List ℕ) (b : ℕ)
    → Seg m a xs e
    → Seg m e ys b
    → Seg m a (xs ++ e ∷ ys) b
Seg-join m a [] e ys b s t = (s.0, s.1, t)
Seg-join m a (x ∷ xs) e ys b s t = (s.0, s.1, Seg-join m x xs e ys b s.2 t)
