-- ===== src/Port/Stack.antt =====
-- Bytes on a descending stack: what `*(stack--) = byte;`, byte by byte, leaves in memory.
use rados.Base.{
  ℕ, zero, suc, ◌-◌, ◌≤◌, ◌<◌, ◌≡◌, refl, ◌⊎◌, List, [], ◌∷◌, ◌++◌, arith, ap, subst, length,
  update,
}
use rados.Tasks.{push_down}

-- From `top` downwards the memory holds the given bytes.
abbrev pub Holds : (ℕ → ℕ) → ℕ → List ℕ → Type 0
Holds ram top [] = Unit {0}
Holds ram top (b ∷ bs) = (ram top ≡ b) × Holds ram (top - 1) bs

-- What is written stands between `top` and `top` less the number of bytes.
pub push_down_out :
    (top : ℕ) (bs : List ℕ) (ram : ℕ → ℕ) (a : ℕ)
    → length bs ≤ top
    → (a ≤ top - length bs) ⊎ (top < a)
    → push_down top bs ram a ≡ ram a
unfolding push_down
push_down_out top [] ram a room out = refl
push_down_out top (b ∷ bs) ram a room out =
    ground (arith, push_down_out (top - 1) bs (update ram top b) a)

pub push_down-Holds :
    (top : ℕ) (bs : List ℕ) (ram : ℕ → ℕ) → length bs ≤ top → Holds (push_down top bs ram) top bs
unfolding push_down
push_down-Holds top [] ram room = tt
push_down-Holds top (b ∷ bs) ram room = (
  ground (arith, push_down_out (top - 1) bs (update ram top b) top),
  push_down-Holds (top - 1) bs (update ram top b) (omega arith),
)

-- A memory that agrees on the bytes holds them too.
pub Holds-same :
    (ram ram' : ℕ → ℕ) (top : ℕ) (bs : List ℕ)
    → length bs ≤ top
    → ((a : ℕ) → top - length bs < a → a ≤ top → ram' a ≡ ram a)
    → Holds ram top bs
    → Holds ram' top bs
Holds-same ram ram' top [] room same h = tt
Holds-same ram ram' top (b ∷ bs) room same h = (
  ground (arith, same top, h.0),
  Holds-same ram ram' (top - 1) bs (omega arith) (λ a lo hi. same a (omega arith) (omega arith))
      h.1,
)

pub Holds-append :
    (ram : ℕ → ℕ) (top : ℕ) (bs cs : List ℕ)
    → Holds ram top bs
    → Holds ram (top - length bs) cs
    → Holds ram top (bs ++ cs)
Holds-append ram top [] cs h k =
    subst (λ (a : ℕ). Holds ram a cs) (let e : top - 0 ≡ top = omega arith in e) k
Holds-append ram top (b ∷ bs) cs h k = (
  h.0,
  Holds-append ram (top - 1) bs cs h.1 (
      subst (λ (a : ℕ). Holds ram a cs)
        (let e : top - suc (length bs) ≡ top - 1 - length bs = omega arith in e) k),
)

-- The bytes that stand in memory.
pub bytes_at : (ℕ → ℕ) → ℕ → ℕ → List ℕ
bytes_at ram top zero = []
bytes_at ram top (suc n) = ram top ∷ bytes_at ram (top - 1) n

pub bytes_at-Holds :
    (ram : ℕ → ℕ) (top n : ℕ)
    → Holds ram top (bytes_at ram top n) × (length (bytes_at ram top n) ≡ n)
unfolding bytes_at
bytes_at-Holds ram top zero = (tt, refl)
bytes_at-Holds ram top (suc n) = let r = bytes_at-Holds ram (top - 1) n in ((refl, r.0), ap suc r.1)
