-- ===== src/Timer/Quiet.antt =====
-- Functions of timers that leave the timers alone, and which timers of a list are due.
use rados.Base.{ℕ, ◌-◌, ◌≡◌, Bool, List, [], ◌∷◌, ltb, leb, if◌then◌else◌}
use rados.Kernel.{Kernel, Timer, Callback}
use rados.Kernel.Run.{M, ok}

-- Functions of timers that log their calls, the last one first, and leave the timers alone.
pub record Quiet (call : Callback → ℕ → M (Unit {0})) (log : Kernel → List (Callback × ℕ))
    : Type 0 where
  pub called : Callback → ℕ → Kernel → Kernel
  pub ends : (c : Callback) (p : ℕ) (k : Kernel) → call c p k ≡ ok tt (called c p k)
  pub timers : (c : Callback) (p : ℕ) (k : Kernel) → (called c p k).timers ≡ k.timers
  pub timer_list : (c : Callback) (p : ℕ) (k : Kernel) → (called c p k).timer_list ≡ k.timer_list
  pub unsynch :
      (c : Callback) (p : ℕ) (k : Kernel) → (called c p k).timer_tick_unsynch ≡ k.timer_tick_unsynch
  pub logs : (c : Callback) (p : ℕ) (k : Kernel) → log (called c p k) ≡ (c, p) ∷ log k
  -- The log is kept outside the timers.
  pub apart :
      (k : Kernel) (timers : ℕ → Timer) (timer_list : List ℕ) (unsynch ticks : ℕ)
      → log (record k {
        timers = timers;
        timer_list = timer_list;
        timer_tick_unsynch = unsynch;
        ticks_cnt = ticks;
      })
        ≡ log k

-- The timers of a list that stay, those that are due, and those of them that start again.
module _ (timers : ℕ → Timer) (unsynch : ℕ) where
  abbrev pub is_due : ℕ → Bool
  is_due i = leb (timers i).ticks_rem unsynch

  abbrev pub pending : List ℕ → List ℕ
  pending [] = []
  pending (i ∷ rest) = if is_due i then pending rest else i ∷ pending rest

  abbrev pub due : List ℕ → List ℕ
  due [] = []
  due (i ∷ rest) = if is_due i then i ∷ due rest else due rest

  abbrev pub restarting : List ℕ → List ℕ
  restarting [] = []
  restarting (i ∷ rest) =
      if is_due i
      then (if ltb 0 (timers i).ticks_reload then i ∷ restarting rest else restarting rest)
      else restarting rest

abbrev pub counted : ℕ → Timer → Timer
counted unsynch timer = record timer { ticks_rem = timer.ticks_rem - unsynch }

-- The log after the timers of a list were called in their order, each once with its own function and
-- parameter.
abbrev pub logged : (ℕ → Timer) → List ℕ → List (Callback × ℕ) → List (Callback × ℕ)
logged timers [] log = log
logged timers (i ∷ rest) log = logged timers rest (((timers i).clbck, (timers i).param) ∷ log)
