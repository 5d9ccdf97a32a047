-- ===== src/Ring/Remove.antt =====
-- The removals of source/list.h: `list_unlink`, `list_detachfirst`; and the queries.
use rados.Base.{
  ℕ, ◌≡◌, refl, false, Option, none, some, List, [], ◌∷◌, ◌++◌, arith, ◌==◌, is_empty, mem,
  mem-append, Distinct,
}
use rados.Ring.{
  Links, list_connect_together, list_init, list_unlink, list_is_empty, list_peekfirst,
  list_peeklast, list_detachfirst,
}
use rados.Ring.Seg.{
  Seg, IsRing, SameOutside, last_of, first_of, ne-first_of, ne-last_of, Seg-first, Seg-last,
  Seg-frame, Seg-split,
}

Seg-nil : (m : Links) (e : ℕ) → Seg (list_init e m) e [] e
unfolding list_init
Seg-nil m e = ground arith

-- `list_init` makes an empty ring.
pub list_init-IsRing : (m : Links) (e : ℕ) → IsRing (list_init e m) e []
list_init-IsRing m e = record { links = Seg-nil m e; distinct = (refl, tt) }

-- The segment without one element.
unlink-Seg :
    (m : Links) (e a : ℕ) (xs ys : List ℕ) (b : ℕ)
    → Seg m a (xs ++ e ∷ ys) b
    → Distinct (a ∷ xs ++ e ∷ ys)
    → mem b (xs ++ e ∷ ys) ≡ false
    → Seg (list_init e (list_connect_together (last_of a xs) (first_of ys b) m)) a (xs ++ ys) b
unfolding list_connect_together list_init
unlink-Seg m e a [] [] b s d bo = ground arith
unlink-Seg m e a [] (y ∷ ys) b s d bo = (
  ground arith,
  ground arith,
  Seg-frame m _ y ys b (λ c i. ground arith) (λ c i. ground arith) s.2.2,
)
unlink-Seg m e a (x ∷ xs) ys b s d bo = (
  ground (arith, mem-append a xs (e ∷ ys), ne-last_of a x xs),
  ground (arith, mem-append x xs (e ∷ ys), ne-first_of x ys b),
  unlink-Seg m e x xs ys b s.2 d.1 (ground arith),
)

Distinct-remove :
    (e : ℕ) (xs ys : List ℕ)
    → Distinct (xs ++ e ∷ ys)
    → Distinct (xs ++ ys) × (mem e (xs ++ ys) ≡ false)
Distinct-remove e [] ys d = (d.1, d.0)
Distinct-remove e (x ∷ xs) ys d =
    let r = Distinct-remove e xs ys d.1 in
    (
      (ground (arith, mem-append x xs ys, mem-append x xs (e ∷ ys)), r.0),
      ground (arith, mem-append x xs (e ∷ ys)),
    )

list_unlink-links :
    (m : Links) (l e : ℕ) (xs ys : List ℕ)
    → IsRing m l (xs ++ e ∷ ys)
    → list_unlink e m ≡ list_init e (list_connect_together (last_of l xs) (first_of ys l) m)
unfolding list_unlink
list_unlink-links m l e xs ys r =
    let (front, back) = Seg-split m l xs e ys l r.links in
    rw (Seg-last m l xs e front, Seg-first m e ys l back)

-- Unlinking an element of a ring leaves a ring of the other elements in their order and the element
-- as an empty ring of its own, and writes no link outside the ring.
pub list_unlink-IsRing :
    (m : Links) (l e : ℕ) (xs ys : List ℕ)
    → IsRing m l (xs ++ e ∷ ys)
    → IsRing (list_unlink e m) l (xs ++ ys)
      × IsRing (list_unlink e m) e []
      × SameOutside (l ∷ xs ++ e ∷ ys) m (list_unlink e m)
unfolding list_connect_together list_init
list_unlink-IsRing m l e xs ys r =
    let rest = Distinct-remove e xs ys r.distinct.1 in
    rw (list_unlink-links m l e xs ys r) (
      record {
        links = unlink-Seg m e l xs ys l r.links r.distinct r.distinct.0;
        distinct =
            (ground (arith, mem-append l xs ys, mem-append l xs (e ∷ ys), r.distinct.0), rest.0);
      },
      list_init-IsRing _ e,
      λ a o. ground (arith, ne-last_of a l xs, ne-first_of a ys l, mem-append a xs (e ∷ ys)),
    )

-- What `list_detachfirst` gives for the ring of `xs`.
abbrev pub Detached : Links → ℕ → List ℕ → Option ℕ × Links → Type 0
Detached m l [] (r, m') = (r ≡ none) × (m' ≡ m)
Detached m l (x ∷ xs) (r, m') =
    (r ≡ some x) × IsRing m' l xs × IsRing m' x [] × SameOutside (l ∷ x ∷ xs) m m'

detachfirst_links :
    (m : Links) (l x : ℕ) (xs : List ℕ)
    → IsRing m l (x ∷ xs)
    → list_detachfirst l m ≡ (some x, list_unlink x m)
unfolding list_detachfirst list_unlink
detachfirst_links m l x xs r =
    let e : (x == l) ≡ false = ground (arith, r.distinct.0) in rw (r.links.0, e) refl

-- `list_detachfirst` of a ring gives its first element and leaves a ring of the rest with the
-- element linked to itself, or gives NULL and changes nothing where the ring is empty.
pub list_detachfirst-Detached :
    (m : Links) (l : ℕ) (xs : List ℕ) → IsRing m l xs → Detached m l xs (list_detachfirst l m)
unfolding list_detachfirst
list_detachfirst-Detached m l [] r = rw r.links.0 (ground arith)
list_detachfirst-Detached m l (x ∷ xs) r =
    let (left, alone, same) = list_unlink-IsRing m l x [] xs r in
    rw (detachfirst_links m l x xs r) (refl, left, alone, same)

abbrev pub first : List ℕ → Option ℕ
first [] = none
first (x ∷ xs) = some x

abbrev pub last : List ℕ → Option ℕ
last [] = none
last (x ∷ []) = some x
last (x ∷ y ∷ xs) = last (y ∷ xs)

last-last_of : (x : ℕ) (xs : List ℕ) → last (x ∷ xs) ≡ some (last_of x xs)
last-last_of x [] = refl
last-last_of x (y ∷ xs) = last-last_of y xs

-- For a ring, `list_is_empty` tells whether it has no element, and `list_peekfirst` and
-- `list_peeklast` give its first and its last element, or NULL where there is none.
pub list_queries :
    (m : Links) (l : ℕ) (xs : List ℕ)
    → IsRing m l xs
    → (list_is_empty l m ≡ is_empty xs)
      × (list_peekfirst l m ≡ first xs)
      × (list_peeklast l m ≡ last xs)
unfolding list_is_empty list_peekfirst list_peeklast
list_queries m l [] r = ground arith
list_queries m l (x ∷ xs) r = ground (
  arith,
  r.distinct.0,
  Seg-last m x xs l r.links.2,
  last-last_of x xs,
  ne-last_of l x xs r.distinct.0,
)
