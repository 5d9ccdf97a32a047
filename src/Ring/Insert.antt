-- ===== src/Ring/Insert.antt =====
-- The insertions of source/list.h: `list_prepend`, `list_append`, `list_put_after`, `list_put_before`.
use mathlib.Core.List.{append-nil, append_assoc}
use rados.Base.{ℕ, ◌≡◌, refl, false, List, [], ◌∷◌, ◌++◌, arith, ◌==◌, mem, mem-append, Distinct}
use rados.Ring.{
  Links, list_put_in_between, list_prepend, list_append, list_put_after, list_put_before,
}
use rados.Ring.Seg.{
  Seg, IsRing, SameOutside, last_of, first_of, ne-first_of, ne-last_of, Seg-first, Seg-last,
  Seg-frame, Seg-split,
}

last_of-append : (a i : ℕ) (xs : List ℕ) → last_of a (xs ++ i ∷ []) ≡ i
last_of-append a i [] = refl
last_of-append a i (x ∷ xs) = last_of-append x i xs

-- The new element between the last of `xs` and the first of `ys`.
insert-Seg :
    (m : Links) (e a : ℕ) (xs ys : List ℕ) (b : ℕ)
    → Seg m a (xs ++ ys) b
    → mem e (a ∷ xs ++ ys) ≡ false
    → (e == b) ≡ false
    → Distinct (a ∷ xs ++ ys)
    → mem b (xs ++ ys) ≡ false
    → Seg (list_put_in_between e (last_of a xs) (first_of ys b) m) a (xs ++ e ∷ ys) b
unfolding list_put_in_between
insert-Seg m e a [] [] b s out ne d bo = ground arith
insert-Seg m e a [] (y ∷ ys) b s out ne d bo = (
  ground arith,
  ground arith,
  (
    ground arith,
    ground arith,
    Seg-frame m _ y ys b (λ c i. ground arith) (λ c i. ground arith) s.2,
  ),
)
insert-Seg m e a (x ∷ xs) ys b s out ne d bo = (
  ground (arith, ne-last_of a x xs, mem-append a (x ∷ xs) ys),
  ground (arith, ne-first_of x ys b, mem-append x xs ys),
  insert-Seg m e x xs ys b s.2 (ground arith) ne d.1 (ground arith),
)

Distinct-insert :
    (e : ℕ) (xs ys : List ℕ)
    → mem e (xs ++ ys) ≡ false
    → Distinct (xs ++ ys)
    → Distinct (xs ++ e ∷ ys)
Distinct-insert e [] ys out d = (out, d)
Distinct-insert e (x ∷ xs) ys out d = (
  ground (arith, mem-append x xs ys, mem-append x xs (e ∷ ys)),
  Distinct-insert e xs ys (ground arith) d.1,
)

-- An element that is in no place of the ring comes between two neighbours, and no other ring changes.
pub list_put_in_between-IsRing :
    (m : Links) (l e : ℕ) (xs ys : List ℕ)
    → IsRing m l (xs ++ ys)
    → mem e (l ∷ xs ++ ys) ≡ false
    → IsRing (list_put_in_between e (last_of l xs) (first_of ys l) m) l (xs ++ e ∷ ys)
list_put_in_between-IsRing m l e xs ys r out = record {
  links = insert-Seg m e l xs ys l r.links out (ground arith) r.distinct r.distinct.0;
  distinct = (
    ground (arith, r.distinct.0, mem-append l xs ys, mem-append l xs (e ∷ ys)),
    Distinct-insert e xs ys (ground arith) r.distinct.1,
  );
}

pub list_put_in_between-SameOutside :
    (m : Links) (l e : ℕ) (xs ys : List ℕ)
    → SameOutside (e ∷ l ∷ xs ++ ys) m (list_put_in_between e (last_of l xs) (first_of ys l) m)
unfolding list_put_in_between
list_put_in_between-SameOutside m l e xs ys a o =
    ground (arith, ne-last_of a l xs, ne-first_of a ys l, mem-append a xs ys)

module _ (m : Links) (l e : ℕ) where
  -- Prepending an element that is outside a ring gives the ring with the element first, and writes
  -- only links of the element and of the ring.
  pub list_prepend-IsRing :
      (xs : List ℕ)
      → IsRing m l xs
      → mem e (l ∷ xs) ≡ false
      → IsRing (list_prepend l e m) l (e ∷ xs) × SameOutside (e ∷ l ∷ xs) m (list_prepend l e m)
  unfolding list_prepend
  list_prepend-IsRing xs r out =
      rw (Seg-first m l xs l r.links)
        (list_put_in_between-IsRing m l e [] xs r out, list_put_in_between-SameOutside m l e [] xs)

  -- Appending an element that is outside a ring gives the ring with the element last, and writes
  -- only links of the element and of the ring.
  pub list_append-IsRing :
      (xs : List ℕ)
      → IsRing m l xs
      → mem e (l ∷ xs) ≡ false
      → IsRing (list_append l e m) l (xs ++ e ∷ []) × SameOutside (e ∷ l ∷ xs) m (list_append l e m)
  unfolding list_append
  list_append-IsRing xs r out =
      let same = list_put_in_between-SameOutside m l e xs [] in
      rw (Seg-last m l xs l r.links) (
        list_put_in_between-IsRing m l e xs [] (rw append-nil r) (rw append-nil out),
        rw append-nil at same,
      )

  -- `list_put_after` puts an element that is outside a ring right behind a given element of the
  -- ring.
  pub list_put_after-IsRing :
      (i : ℕ) (xs ys : List ℕ)
      → IsRing m l (xs ++ i ∷ ys)
      → mem e (l ∷ xs ++ i ∷ ys) ≡ false
      → IsRing (list_put_after i e m) l (xs ++ i ∷ e ∷ ys)
  unfolding list_put_after
  list_put_after-IsRing i xs ys r out =
      let got =
        list_put_in_between-IsRing m l e (xs ++ i ∷ []) ys (rw append_assoc r)
          (rw append_assoc out) in
      rw (Seg-first m i ys l (Seg-split m l xs i ys l r.links).1)
        (rw (last_of-append l i xs, append_assoc) at got)

  -- `list_put_before` puts an element that is outside a ring right in front of a given element of
  -- the ring.
  pub list_put_before-IsRing :
      (i : ℕ) (xs ys : List ℕ)
      → IsRing m l (xs ++ i ∷ ys)
      → mem e (l ∷ xs ++ i ∷ ys) ≡ false
      → IsRing (list_put_before i e m) l (xs ++ e ∷ i ∷ ys)
  unfolding list_put_before
  list_put_before-IsRing i xs ys r out =
      rw (Seg-last m l xs i (Seg-split m l xs i ys l r.links).0)
        (list_put_in_between-IsRing m l e xs (i ∷ ys) r out)
