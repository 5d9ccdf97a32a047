-- ===== src/Timer/Tick.antt =====
-- The timers at a tick: which are called, which stay, and how many ticks they have left.
use rados.Base.{
  ℕ, ◌+◌, ◌-◌, ◌^◌, ◌≤◌, ◌<◌, ◌≡◌, refl, ◌∙◌, ap, inl, inr, true, false, List, [], ◌∷◌, arith, ◌==◌,
  ◌||◌, ◌&&◌, not, ltb, leb, if◌then◌else◌, Bool-cases, is_empty, length, mem,
}
use rados.Kernel.{Kernel, Timer, Callback}
use rados.Kernel.Run.{M, ok}
use rados.Timer.{unsynch_max, add_ticks, head_due, tick_timers}
use rados.Timer.Rising.{Rising, Rising-at}
use rados.Timer.Valid.{TimersValid, remaining}
use rados.Timer.Quiet.{Quiet, due, logged}
use rados.Timer.Restart.{due-nil}
use rados.Timer.Fire.{Counted, Fired, timer_trigger-Fired}

empty-mem : (j : ℕ) (xs : List ℕ) → is_empty xs ≡ true → mem j xs ≡ false
empty-mem j [] e = refl
empty-mem j (x ∷ xs) e = absurd (ground arith)

due_empty :
    (timers : ℕ → Timer) (unsynch : ℕ) (xs : List ℕ)
    → is_empty xs ≡ true
    → due timers unsynch xs ≡ []
due_empty timers unsynch [] e = refl
due_empty timers unsynch (x ∷ xs) e = absurd (ground arith)

module _ (call : Callback → ℕ → M (Unit {0})) (log : Kernel → List (Callback × ℕ))
    (q : Quiet call log) where
  -- What a tick does to the timers: one with one tick left is called, and starts again if it has a
  -- reload value; the others have one tick less.
  pub record Ticked (k k' : Kernel) : Type 0 where
    pub valid : TimersValid k'
    pub listed :
        (j : ℕ)
        → mem j k'.timer_list
          ≡ (mem j k.timer_list && (not (remaining k j == 1) || ltb 0 (k.timers j).ticks_reload))
    pub left :
        (j : ℕ)
        → mem j k'.timer_list ≡ true
        → remaining k' j
          ≡ (if remaining k j == 1 then (k.timers j).ticks_reload else remaining k j - 1)
    -- Each due timer was called once with its own function and parameter, in the order of the list.
    pub fired :
        log k' ≡ logged k.timers (due k.timers (k.timer_tick_unsynch + 1) k.timer_list) (log k)

  module _ (k : Kernel) (v : TimersValid k) where
    -- The kernel after the counters went up.
    abbrev ticked : Kernel
    ticked = record k {
      ticks_cnt = add_ticks k.ticks_cnt 1;
      timer_tick_unsynch = add_ticks k.timer_tick_unsynch 1;
    }

    next_unsynch : add_ticks k.timer_tick_unsynch 1 ≡ k.timer_tick_unsynch + 1
    next_unsynch = omega (arith, v.unsynch_small)

    one_at_least :
        (j : ℕ) → mem j k.timer_list ≡ true → k.timer_tick_unsynch + 1 ≤ (k.timers j).ticks_rem
    one_at_least j m = Rising-at k.timers (k.timer_tick_unsynch + 1) k.timer_list j v.rising m

    log-ticked : log ticked ≡ log k
    log-ticked = q.apart k k.timers k.timer_list _ _

    head_late :
        (xs : List ℕ)
        → k.timer_list ≡ xs
        → head_due call ticked ≡ false
        → Rising k.timers (k.timer_tick_unsynch + 1) xs
        → is_empty xs ≡ false
        → Rising k.timers (k.timer_tick_unsynch + 1 + 1) xs
          × (k.timer_tick_unsynch + 1 ≤ unsynch_max)
    unfolding head_due
    head_late [] e late r full = absurd (ground arith)
    head_late (x ∷ xs) e late r full =
        let after : (leb (k.timers x).ticks_rem (k.timer_tick_unsynch + 1)
              || ltb unsynch_max (k.timer_tick_unsynch + 1))
            ≡ false =
          rw (e, next_unsynch) at late in
        ((ground arith, r.1), ground arith)

    waiting-Ticked : head_due call ticked ≡ false → is_empty k.timer_list ≡ false → Ticked k ticked
    waiting-Ticked late full =
        let (rising, small) = head_late k.timer_list refl late v.rising full in
        let more = λ (j : ℕ) (m : mem j k.timer_list ≡ true).
          Rising-at k.timers (k.timer_tick_unsynch + 1 + 1) k.timer_list j rising m in
        record {
          valid = record {
            rising = rw next_unsynch rising;
            distinct = v.distinct;
            small = v.small;
            made = v.made;
            unsynch_small = rw next_unsynch small;
            unsynch_idle = λ e. absurd (ground arith);
          };
          listed = λ j. ground (arith, more j);
          left = λ j m. ground (arith, more j m, next_unsynch);
          fired =
              rw
                (due-nil k.timers (k.timer_tick_unsynch + 1) (k.timer_tick_unsynch + 1 + 1)
                  k.timer_list (omega arith) rising)
                log-ticked;
        }

    idle-Ticked :
        is_empty k.timer_list ≡ true → Ticked k (record k { ticks_cnt = add_ticks k.ticks_cnt 1 })
    idle-Ticked none_left =
        let none_in = λ (j : ℕ). empty-mem j k.timer_list none_left in
        record {
          valid = record {
            rising = v.rising;
            distinct = v.distinct;
            small = v.small;
            made = v.made;
            unsynch_small = v.unsynch_small;
            unsynch_idle = v.unsynch_idle;
          };
          listed = λ j. ground (arith, none_in j);
          left = λ j m. absurd (ground (arith, none_in j));
          fired =
              rw (due_empty k.timers (k.timer_tick_unsynch + 1) k.timer_list none_left)
                (q.apart k k.timers k.timer_list k.timer_tick_unsynch (add_ticks k.ticks_cnt 1));
        }

    Fired-Ticked : (k' : Kernel) → Fired call log q ticked k' → Ticked k k'
    Fired-Ticked k' f = record {
      valid = f.valid;
      listed = λ j. ground (arith, f.listed j, one_at_least j, next_unsynch);
      left = λ j m. ground (arith, f.listed j, f.left j m, f.unsynch, one_at_least j, next_unsynch);
      fired =
          f.fired
          ∙ (ap (λ n. logged k.timers (due k.timers n k.timer_list) (log ticked)) next_unsynch
              ∙ ap (λ l. logged k.timers (due k.timers (k.timer_tick_unsynch + 1) k.timer_list) l)
                  log-ticked);
    }

    ticked-Counted :
        ((i : ℕ) → mem i k.timer_list ≡ true → (k.timers i).ticks_reload < 2 ^ 16)
        → Counted call log q ticked
    ticked-Counted reload_small = record {
      rising = rw next_unsynch v.rising;
      distinct = v.distinct;
      small = v.small;
      made = v.made;
      reload_small = reload_small;
    }

    -- For a valid timer list, 16 bit reload values, functions of timers that leave the timers alone
    -- and log their calls, and fuel above the length of the list, the part of `os_tick` that deals
    -- with timers ends. Each timer with one tick left has its own function called once with its own
    -- parameter, in the order of the list and no others, and leaves the list, or starts again with
    -- its reload value where it has one; every other timer of the list stays with one tick less; no
    -- timer outside the list joins it; and the list is valid again.
    pub tick_timers-Ticked :
        (fuel : ℕ)
        → ((i : ℕ) → mem i k.timer_list ≡ true → (k.timers i).ticks_reload < 2 ^ 16)
        → length k.timer_list < fuel
        → (k' : Kernel) × (tick_timers call fuel k ≡ ok tt k') × Ticked k k'
    unfolding tick_timers
    tick_timers-Ticked fuel reload_small h = elim (Bool-cases (is_empty k.timer_list)) [
      | inl none_left ↦ (
        record k { ticks_cnt = add_ticks k.ticks_cnt 1 },
        rw none_left refl,
        idle-Ticked none_left,
      )
      | inr full ↦ elim (Bool-cases (head_due call ticked)) [
        | inl over ↦
            let (k', e, f) =
              timer_trigger-Fired call log q fuel ticked (ticked-Counted reload_small) h in
            (k', rw (full, over) e, Fired-Ticked k' f)
        | inr late ↦ (ticked, rw (full, late) refl, waiting-Ticked late full)
      ]
    ]
