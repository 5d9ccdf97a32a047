-- ===== src/Timer/Valid.antt =====
-- The invariant of the timer list, and that creation and destruction of timers keep it.
use rados.Base.{
  ℕ, ◌+◌, ◌-◌, ◌^◌, ◌≤◌, ◌<◌, ◌≡◌, refl, true, false, List, [], ◌∷◌, arith, ◌==◌, ◌||◌,
  if◌then◌else◌, is_empty, erase, erase-out, mem, mem-erase, Distinct, Distinct-erase,
}
use rados.Kernel.{Kernel, Timer, Callback, magic1, magic2}
use rados.Kernel.Run.{ok, set_timer}
use rados.Timer.Rising.{
  Rising, Rising-same, Rising-below, Rising-at, Rising-erase, mem-place, Rising-place,
  Distinct-place,
}
use rados.Timer.Ops.{new_timer, os_timer_create_lem, timer_destroyed, os_timer_destroy_lem}
use rados.Timer.{
  unsynch_max, ticksrem_max, timer_add, os_timer_create, stop_timer, reset_unsynch,
  os_timer_destroy,
}

not_empty : (j : ℕ) (xs : List ℕ) → mem j xs ≡ true → is_empty xs ≡ false
not_empty j [] m = absurd (ground arith)
not_empty j (x ∷ xs) m = refl

pub record TimersValid (k : Kernel) : Type 0 where
  -- The list is sorted, and no timer of it is due.
  pub rising : Rising k.timers (k.timer_tick_unsynch + 1) k.timer_list
  pub distinct : Distinct k.timer_list
  pub small : (i : ℕ) → mem i k.timer_list ≡ true → (k.timers i).ticks_rem < 2 ^ 16
  pub made : (i : ℕ) → mem i k.timer_list ≡ true → (k.timers i).magic ≡ magic1
  pub unsynch_small : k.timer_tick_unsynch ≤ unsynch_max
  pub unsynch_idle : is_empty k.timer_list ≡ true → k.timer_tick_unsynch ≡ 0

-- The ticks until a timer of the list is due.
abbrev pub remaining : Kernel → ℕ → ℕ
remaining k i = (k.timers i).ticks_rem - k.timer_tick_unsynch

module _ (k : Kernel) (v : TimersValid k) where
  abbrev pub created : (timer : ℕ) (t : Timer) → Kernel
  created timer t = timer_add timer (set_timer timer t k)

  pub created-TimersValid :
      (timer : ℕ) (t : Timer)
      → mem timer k.timer_list ≡ false
      → k.timer_tick_unsynch < t.ticks_rem
      → t.ticks_rem < 2 ^ 16
      → t.magic ≡ magic1
      → TimersValid (created timer t)
  unfolding timer_add
  created-TimersValid timer t out more small mark =
      let timers = (set_timer timer t k).timers in
      let there = λ (j : ℕ). mem-place timers timer j k.timer_list in
      record {
        rising =
            Rising-place timers timer (k.timer_tick_unsynch + 1) k.timer_list (ground arith)
              (Rising-same k.timers timers _ k.timer_list (λ i m. ground arith) v.rising);
        distinct = Distinct-place timers timer k.timer_list out v.distinct;
        small = λ i m. ground (arith, there i, v.small i);
        made = λ i m. ground (arith, there i, v.made i);
        unsynch_small = v.unsynch_small;
        unsynch_idle = λ e. ground (arith, there timer, v.unsynch_idle);
      }

  -- In a valid timer list `os_timer_create` of a timer that is not in use, with a timeout from 1 up
  -- to below OS_TIMER_TICKSREM_MAX, succeeds: the timer has exactly the timeout to go, no sum
  -- overflows, it joins the list, no other timer changes, and the list is valid.
  pub os_timer_create-TimersValid :
      (timer : ℕ) (clbck : Callback) (param timeout_ticks reload_ticks : ℕ)
      → 0 < timeout_ticks
      → timeout_ticks < ticksrem_max
      → ((k.timers timer).magic == magic1) ≡ false
      → (k' : Kernel) × (os_timer_create timer clbck param timeout_ticks reload_ticks k ≡ ok tt k')
        × TimersValid k'
        × (remaining k' timer ≡ timeout_ticks)
        × ((j : ℕ) → mem j k'.timer_list ≡ (j == timer || mem j k.timer_list))
        × ((j : ℕ) → (j == timer) ≡ false → k'.timers j ≡ k.timers j)
        × (k'.timer_tick_unsynch ≡ k.timer_tick_unsynch)
  unfolding timer_add
  os_timer_create-TimersValid timer clbck param timeout_ticks reload_ticks h l m =
      let t = new_timer clbck param timeout_ticks reload_ticks k in
      let out : mem timer k.timer_list ≡ false = ground (arith, v.made timer) in
      (
        created timer t,
        os_timer_create_lem timer clbck param timeout_ticks reload_ticks k h l m,
        created-TimersValid timer t out (omega (arith, v.unsynch_small))
            (omega (arith, v.unsynch_small)) refl,
        ground (arith, v.unsynch_small),
        λ j. mem-place (set_timer timer t k).timers timer j k.timer_list,
        λ j n. ground arith,
        refl,
      )

  module _ (timer : ℕ) where
    list_after : (timer_destroyed timer k).timer_list ≡ erase timer k.timer_list
    unfolding stop_timer reset_unsynch
    list_after =
        let least = Rising-at k.timers (k.timer_tick_unsynch + 1) k.timer_list timer v.rising in
        ground (arith, least, erase-out timer k.timer_list)

    other_after : (j : ℕ) → (j == timer) ≡ false → (timer_destroyed timer k).timers j ≡ k.timers j
    unfolding stop_timer reset_unsynch
    other_after j n = ground arith

    unsynch_after :
        (is_empty (timer_destroyed timer k).timer_list ≡ true
          → (timer_destroyed timer k).timer_tick_unsynch ≡ 0)
        × (is_empty (timer_destroyed timer k).timer_list ≡ false
            → (timer_destroyed timer k).timer_tick_unsynch ≡ k.timer_tick_unsynch)
    unfolding stop_timer reset_unsynch
    unsynch_after = ground arith

    unsynch_le : (timer_destroyed timer k).timer_tick_unsynch ≤ k.timer_tick_unsynch
    unfolding stop_timer reset_unsynch
    unsynch_le = ground arith

    mem-after :
        (j : ℕ)
        → mem j (timer_destroyed timer k).timer_list
          ≡ (if j == timer then false else mem j k.timer_list)
    mem-after j = rw list_after (mem-erase j timer k.timer_list v.distinct)

    other_of_mem :
        (j : ℕ) → mem j (timer_destroyed timer k).timer_list ≡ true → (j == timer) ≡ false
    other_of_mem j m = ground (arith, mem-after j)

    same_left :
        (j : ℕ)
        → mem j (timer_destroyed timer k).timer_list ≡ true
        → remaining (timer_destroyed timer k) j ≡ remaining k j
    same_left j m =
        let e = other_after j (other_of_mem j m) in
        let full = not_empty j (timer_destroyed timer k).timer_list m in
        rw (e, unsynch_after.1 full) refl

    gone : ((timer_destroyed timer k).timers timer).ticks_rem ≡ 0
    unfolding stop_timer reset_unsynch
    gone = ground arith

    destroyed-TimersValid : TimersValid (timer_destroyed timer k)
    destroyed-TimersValid = record {
      rising =
          Rising-same k.timers (timer_destroyed timer k).timers _
            (timer_destroyed timer k).timer_list (λ j m. other_after j (other_of_mem j m))
            (rw list_after (
              Rising-erase k.timers _ timer k.timer_list (
                Rising-below k.timers _ (k.timer_tick_unsynch + 1) k.timer_list
                  (omega (arith, unsynch_le)) v.rising)));
      distinct = rw list_after (Distinct-erase timer k.timer_list v.distinct);
      small =
          λ j m. rw (other_after j (other_of_mem j m)) (v.small j (ground (arith, mem-after j)));
      made = λ j m. rw (other_after j (other_of_mem j m)) (v.made j (ground (arith, mem-after j)));
      unsynch_small = omega (arith, unsynch_le, v.unsynch_small);
      unsynch_idle = unsynch_after.0;
    }

  -- In a valid timer list `os_timer_destroy` of a timer that was created succeeds: the timer has
  -- left the list with no ticks to go and is marked as destroyed, every other timer keeps its
  -- fields and its ticks to go, and the list is valid.
  pub os_timer_destroy-TimersValid :
      (timer : ℕ)
      → ((k.timers timer).magic == magic1 || (k.timers timer).magic == magic2) ≡ true
      → (k' : Kernel) × (os_timer_destroy timer k ≡ ok tt k')
        × TimersValid k'
        × ((k'.timers timer).ticks_rem ≡ 0)
        × ((k'.timers timer).magic ≡ magic2)
        × ((j : ℕ) → mem j k'.timer_list ≡ (if j == timer then false else mem j k.timer_list))
        × ((j : ℕ) → (j == timer) ≡ false → k'.timers j ≡ k.timers j)
        × ((j : ℕ) → mem j k'.timer_list ≡ true → remaining k' j ≡ remaining k j)
  unfolding stop_timer reset_unsynch
  os_timer_destroy-TimersValid timer made = (
    timer_destroyed timer k,
    (os_timer_destroy_lem timer k made).0,
    destroyed-TimersValid timer,
    gone timer,
    ground arith,
    mem-after timer,
    other_after timer,
    λ j m. same_left timer j m,
  )
