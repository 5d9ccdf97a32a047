-- ===== src/Examples/Rings.antt =====
-- The ring of the header 10 with the elements 1 and 2.
use rados.Base.{ℕ, ◌≤◌, ◌<◌, ◌≡◌, refl, some, List, [], ◌∷◌, ◌++◌, arith, All, ◌-◌}
use rados.Ring.{Links, list_init, list_append}
use rados.Ring.Seg.{IsRing}
use rados.Ring.Insert.{list_append-IsRing}
use rados.Ring.Remove.{list_init-IsRing}
use rados.Ring.Prio.{listprio_append, Falling, listprio_append-Falling}

abbrev empty : Links
empty = list_init 10 (record { next = λ a. 0; prev = λ a. 0 })

abbrev two : Links
two = list_append 10 2 (list_append 10 1 empty)

one-IsRing : IsRing (list_append 10 1 empty) 10 (1 ∷ [])
one-IsRing = (list_append-IsRing empty 10 1 [] (list_init-IsRing _ 10) refl).0

two-IsRing : IsRing two 10 (1 ∷ 2 ∷ [])
two-IsRing = (list_append-IsRing _ 10 2 (1 ∷ []) one-IsRing refl).0

-- Each element's address is its priority.
abbrev prio : ℕ → ℕ
prio e = 9 - e

listprio_append-Falling_example :
    (m' : Links) × (before : List ℕ) × (after : List ℕ) × (listprio_append 3 prio 10 3 two
      ≡ some m')
    × ((1 ∷ 2 ∷ []) ≡ before ++ after)
    × IsRing m' 10 (before ++ 3 ∷ after)
    × All (λ x. prio 3 ≤ prio x) before
    × All (λ x. prio x < prio 3) after
    × Falling prio 9 (before ++ 3 ∷ after)
listprio_append-Falling_example =
    listprio_append-Falling 3 prio 10 3 9 (1 ∷ 2 ∷ []) two two-IsRing refl (omega arith)
      (omega arith) (omega arith)
