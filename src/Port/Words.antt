-- ===== src/Port/Words.antt =====
-- Words on a descending stack: what `*(stack--) = word;`, word by word, leaves in memory. A word has the
-- address of its low byte.
use rados.Base.{ℕ, ◌+◌, ◌-◌, ◌*◌, ◌≤◌, ◌<◌, ◌≡◌, refl, ◌⊎◌, List, [], ◌∷◌, arith, length, update}

unfoldable pub put_words : ℕ → List ℕ → (ℕ → ℕ) → ℕ → ℕ
put_words top [] ram = ram
put_words top (w ∷ ws) ram = put_words (top - 2) ws (update ram top w)

-- From `top` downwards the memory holds the given words.
abbrev pub HoldsWords : (ℕ → ℕ) → ℕ → List ℕ → Type 0
HoldsWords ram top [] = Unit {0}
HoldsWords ram top (w ∷ ws) = (ram top ≡ w) × HoldsWords ram (top - 2) ws

pub put_words_out :
    (top : ℕ) (ws : List ℕ) (ram : ℕ → ℕ) (a : ℕ)
    → 2 * length ws ≤ top
    → (a + 2 * length ws < top + 2) ⊎ (top < a)
    → put_words top ws ram a ≡ ram a
unfolding put_words
put_words_out top [] ram a room out = refl
put_words_out top (w ∷ ws) ram a room out =
    ground (arith, put_words_out (top - 2) ws (update ram top w) a)

pub put_words-HoldsWords :
    (top : ℕ) (ws : List ℕ) (ram : ℕ → ℕ)
    → 2 * length ws ≤ top
    → HoldsWords (put_words top ws ram) top ws
unfolding put_words
put_words-HoldsWords top [] ram room = tt
put_words-HoldsWords top (w ∷ ws) ram room = (
  ground (arith, put_words_out (top - 2) ws (update ram top w) top),
  put_words-HoldsWords (top - 2) ws (update ram top w) (omega arith),
)

-- A memory that agrees on the words holds them too.
pub HoldsWords-same :
    (ram ram' : ℕ → ℕ) (top : ℕ) (ws : List ℕ)
    → 2 * length ws ≤ top
    → ((a : ℕ) → top + 2 ≤ a + 2 * length ws → a ≤ top → ram' a ≡ ram a)
    → HoldsWords ram top ws
    → HoldsWords ram' top ws
HoldsWords-same ram ram' top [] room same h = tt
HoldsWords-same ram ram' top (w ∷ ws) room same h = (
  ground (arith, same top, h.0),
  HoldsWords-same ram ram' (top - 2) ws (omega arith)
      (λ a lo hi. same a (omega arith) (omega arith)) h.1,
)
