-- ===== src/Timer/Stop.antt =====
-- The timer that a task may have is destroyed, and the others go on.
use rados.Base.{
  ℕ, ◌≡◌, sym, subst, refl, ◌∙◌, false, Option, none, some, arith, ◌==◌, ltb, if◌then◌else◌, erase,
  is_empty,
}
use rados.Kernel.{Kernel, magic2}
use rados.Timer.{stop_timer, reset_unsynch}
use rados.Timer.Ops.{timer_destroyed}

-- The timers are the same.
pub record SameTimers (k k' : Kernel) : Type 0 where
  pub timers : k'.timers ≡ k.timers
  pub timer_list : k'.timer_list ≡ k.timer_list
  pub unsynch : k'.timer_tick_unsynch ≡ k.timer_tick_unsynch

-- Timer `i` of `k` is destroyed in `k'`: it has no ticks to go, and has left the list if it still ran.
-- No other timer changes.
pub record Stopped (i : ℕ) (k k' : Kernel) : Type 0 where
  pub ticks_rem : (k'.timers i).ticks_rem ≡ 0
  pub magic : (k'.timers i).magic ≡ magic2
  pub others : (j : ℕ) → (j == i) ≡ false → k'.timers j ≡ k.timers j
  pub timer_list :
      k'.timer_list ≡ (if ltb 0 (k.timers i).ticks_rem then erase i k.timer_list else k.timer_list)
  pub unsynch : k'.timer_tick_unsynch ≡ (if is_empty k'.timer_list then 0 else k.timer_tick_unsynch)

-- The timer is destroyed, where there was one.
pub record Disarmed (timer : Option ℕ) (k k' : Kernel) : Type 0 where
  pub kept : timer ≡ none → SameTimers k k'
  pub stopped : (i : ℕ) → timer ≡ some i → Stopped i k k'

pub SameTimers-refl : (k : Kernel) → SameTimers k k
SameTimers-refl k = record { timers = refl; timer_list = refl; unsynch = refl }

SameTimers-trans : {k k1 k' : Kernel} → SameTimers k k1 → SameTimers k1 k' → SameTimers k k'
SameTimers-trans s t = record {
  timers = t.timers ∙ s.timers;
  timer_list = t.timer_list ∙ s.timer_list;
  unsynch = t.unsynch ∙ s.unsynch;
}

-- The timers alone count, before and after.
pub Stopped-same :
    {i : ℕ} {k k1 k2 k' : Kernel}
    → SameTimers k k1
    → Stopped i k1 k2
    → SameTimers k2 k'
    → Stopped i k k'
Stopped-same s t u = record {
  ticks_rem = rw u.timers t.ticks_rem;
  magic = rw u.timers t.magic;
  others = λ j n. rw (u.timers, ← s.timers) (t.others j n);
  timer_list = rw (u.timer_list, ← s.timers, ← s.timer_list) t.timer_list;
  unsynch = rw (u.unsynch, u.timer_list, ← s.unsynch) t.unsynch;
}

pub Disarmed-same :
    {timer timer' : Option ℕ} {k k1 k2 k' : Kernel}
    → timer ≡ timer'
    → SameTimers k k1
    → Disarmed timer' k1 k2
    → SameTimers k2 k'
    → Disarmed timer k k'
Disarmed-same same s d u = record {
  kept = λ e. SameTimers-trans s (SameTimers-trans (d.kept (sym same ∙ e)) u);
  stopped = λ i e. Stopped-same s (d.stopped i (sym same ∙ e)) u;
}

pub Disarmed-some :
    {timer : Option ℕ} (i : ℕ) (k k' : Kernel)
    → timer ≡ some i
    → Stopped i k k'
    → Disarmed timer k k'
Disarmed-some i k k' e s = record {
  kept = λ x. absurd (cc);
  stopped = λ j x. let is : i ≡ j = cc in subst (λ (n : ℕ). Stopped n k k') is s;
}

pub timer_destroyed-Stopped : (i : ℕ) (k : Kernel) → Stopped i k (timer_destroyed i k)
unfolding stop_timer reset_unsynch
timer_destroyed-Stopped i k = record {
  ticks_rem = ground arith;
  magic = ground arith;
  others = λ j n. ground arith;
  timer_list = ground arith;
  unsynch = ground arith;
}
