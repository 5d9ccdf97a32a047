-- ===== src/Timer/Fire.antt =====
-- `timer_trigger`: the due timers are called, the others are counted down, and some start again.
use rados.Base.{
  ℕ, ◌-◌, ◌^◌, ◌<◌, ◌≡◌, refl, ◌∙◌, true, List, [], ◌∷◌, arith, ◌||◌, ◌&&◌, not, ltb, if◌then◌else◌,
  length, mem, Distinct,
}
use rados.Kernel.{Kernel, Callback, magic1}
use rados.Kernel.Run.{M, ok}
use rados.Timer.{timer_add, reload_all, timer_trigger}
use rados.Timer.Rising.{Rising, Rising-at}
use rados.Timer.Valid.{TimersValid}
use rados.Timer.Quiet.{Quiet, is_due, due, restarting, logged}
use rados.Timer.Trigger.{Triggered, trigger_loop-Triggered}
use rados.Timer.Restart.{
  mem-pending, mem-restarting, Distinct-pending, Distinct-restarting, Rising-pending, Reloaded,
  reload_all-Reloaded,
}

module _ (call : Callback → ℕ → M (Unit {0})) (log : Kernel → List (Callback × ℕ))
    (q : Quiet call log) where
  log-reload_all : (xs : List ℕ) (k : Kernel) → log (reload_all xs k) ≡ log k
  unfolding reload_all timer_add
  log-reload_all [] k = refl
  log-reload_all (x ∷ xs) k = log-reload_all xs _ ∙ q.apart k _ _ k.timer_tick_unsynch k.ticks_cnt

  -- The kernel at the moment of `timer_trigger`: the ticks since the last one are counted.
  pub record Counted (k : Kernel) : Type 0 where
    pub rising : Rising k.timers k.timer_tick_unsynch k.timer_list
    pub distinct : Distinct k.timer_list
    pub small : (i : ℕ) → mem i k.timer_list ≡ true → (k.timers i).ticks_rem < 2 ^ 16
    pub made : (i : ℕ) → mem i k.timer_list ≡ true → (k.timers i).magic ≡ magic1
    pub reload_small : (i : ℕ) → mem i k.timer_list ≡ true → (k.timers i).ticks_reload < 2 ^ 16

  -- What `timer_trigger` does to the timers.
  pub record Fired (k k' : Kernel) : Type 0 where
    pub valid : TimersValid k'
    pub unsynch : k'.timer_tick_unsynch ≡ 0
    pub listed :
        (j : ℕ)
        → mem j k'.timer_list ≡ (
            mem j k.timer_list
            && (not (is_due k.timers k.timer_tick_unsynch j) || ltb 0 (k.timers j).ticks_reload))
    pub left :
        (j : ℕ)
        → mem j k'.timer_list ≡ true
        → (k'.timers j).ticks_rem ≡ (
            if is_due k.timers k.timer_tick_unsynch j
            then (k.timers j).ticks_reload
            else (k.timers j).ticks_rem - k.timer_tick_unsynch)
    -- Each due timer was called once with its own function and parameter, in the order of the list.
    pub fired : log k' ≡ logged k.timers (due k.timers k.timer_tick_unsynch k.timer_list) (log k)

  module _ (k k1 : Kernel) (c : Counted k)
      (t : Triggered call log q k.timers k.timer_tick_unsynch [] k.timer_list [] k k1) where
    abbrev synched : Kernel
    synched = record k1 { timer_tick_unsynch = 0 }

    abbrev again : List ℕ
    again = restarting k.timers k.timer_tick_unsynch k.timer_list

    counted_rem :
        (i : ℕ)
        → mem i k.timer_list ≡ true
        → (k1.timers i).ticks_rem ≡ (k.timers i).ticks_rem - k.timer_tick_unsynch
    counted_rem i m = ground (arith, t.counted_down i)

    other_fields :
        (i : ℕ)
        → ((k1.timers i).ticks_reload ≡ (k.timers i).ticks_reload)
          × ((k1.timers i).magic ≡ (k.timers i).magic)
    other_fields i = ground (arith, t.counted_down i)

    mem-list :
        (j : ℕ)
        → mem j k1.timer_list ≡ (mem j k.timer_list && not (is_due k.timers k.timer_tick_unsynch j))
    mem-list j = rw t.list (mem-pending k.timers k.timer_tick_unsynch j k.timer_list)

    synched-TimersValid : TimersValid synched
    synched-TimersValid = record {
      rising = rw t.list (
          Rising-pending k.timers k.timer_tick_unsynch k1.timers k.timer_tick_unsynch 1 k.timer_list
            counted_rem (λ r a b. omega arith) c.rising);
      distinct = rw t.list (Distinct-pending k.timers k.timer_tick_unsynch k.timer_list c.distinct);
      small = λ i m. ground (arith, mem-list i, counted_rem i, c.small i);
      made = λ i m. ground (arith, mem-list i, other_fields i, c.made i);
      unsynch_small = omega arith;
      unsynch_idle = λ e. refl;
    }

    again-Reloaded : Reloaded again synched (reload_all again synched)
    again-Reloaded =
        reload_all-Reloaded again synched synched-TimersValid refl
          (Distinct-restarting k.timers k.timer_tick_unsynch k.timer_list c.distinct)
          λ j m. ground (
            arith,
            mem-restarting k.timers k.timer_tick_unsynch j k.timer_list,
            mem-list j,
            other_fields j,
            c.reload_small j,
            c.made j,
          )

    reloaded-Fired : Fired k (reload_all again synched)
    reloaded-Fired =
        let r = again-Reloaded in
        let back = λ (j : ℕ). mem-restarting k.timers k.timer_tick_unsynch j k.timer_list in
        record {
          valid = r.valid;
          unsynch = r.unsynch;
          listed = λ j. ground (arith, r.listed j, back j, mem-list j);
          left = λ j m.
              ground
                (arith, r.listed j, r.timers j, back j, mem-list j, other_fields j, counted_rem j);
          fired =
              log-reload_all again synched
              ∙ (q.apart k1 k1.timers k1.timer_list 0 k1.ticks_cnt ∙ t.fired);
        }

  pub timer_trigger-Fired :
      (fuel : ℕ) (k : Kernel)
      → Counted k
      → length k.timer_list < fuel
      → (k' : Kernel) × (timer_trigger call fuel k ≡ ok tt k') × Fired k k'
  unfolding timer_trigger
  timer_trigger-Fired fuel k c h =
      let (k1, e, t) =
        trigger_loop-Triggered call log q k.timers k.timer_tick_unsynch fuel [] k.timer_list [] k
          refl refl c.distinct (λ j m. refl)
          (λ j m. (Rising-at k.timers k.timer_tick_unsynch k.timer_list j c.rising m, c.small j m))
          h in
      (reload_all (again k k1 c t) (synched k k1 c t), rw e refl, reloaded-Fired k k1 c t)
