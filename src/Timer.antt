-- ===== src/Timer.antt =====
-- source/os_timer.c: the sorted list of running timers and the tick. What a timer's function does is
-- the parameter `call`, so that the kernel's own callbacks and those of a program both fit.
pub mod Ops
pub mod Rising
pub mod Stop
pub mod Valid
pub mod Quiet
pub mod Step
pub mod Trigger
pub mod Restart
pub mod Fire
pub mod Tick
pub mod Ticks
use rados.Base.{
  ℕ, zero, suc, ◌+◌, ◌-◌, ◌%◌, ◌^◌, Bool, false, Option, none, some, List, [], ◌∷◌, ◌++◌, ◌==◌,
  ◌||◌, ltb, leb, if◌then◌else◌, is_empty, erase, mem, not,
}
use rados.Kernel.{Kernel, Timer, Callback, in_schedule, ticks_max}
use rados.Kernel.Run.{
  M, ok, pure, and_then, ◌>>=◌, ◌>>◌, get, modify, crash, os_assert, arch_critical_enter,
  arch_critical_exit, set_timer,
}
use rados.Sched.{os_schedule}
use rados.Kernel.{magic1, magic2}

-- `OS_TIMER_UNSYNCH_MAX` and `OS_TIMER_TICKSREM_MAX`.
abbrev pub unsynch_max : ℕ
unsynch_max = 1024

abbrev pub ticksrem_max : ℕ
ticksrem_max = 2 ^ 16 - 1 - 1024

-- Differences and sums of `os_ticks_t`.
abbrev pub sub_ticks : ℕ → ℕ → ℕ
sub_ticks a b = (a + 2 ^ 16 - b) % 2 ^ 16

abbrev pub add_ticks : ℕ → ℕ → ℕ
add_ticks a b = (a + b) % 2 ^ 16

-- The walk of `timer_add`: before the first timer that has more ticks to go.
unfoldable pub place : (ℕ → Timer) → ℕ → List ℕ → List ℕ
place timers add_timer [] = add_timer ∷ []
place timers add_timer (itr ∷ rest) =
    if ltb (timers add_timer).ticks_rem (timers itr).ticks_rem
    then add_timer ∷ itr ∷ rest
    else itr ∷ place timers add_timer rest

unfoldable pub timer_add : ℕ → Kernel → Kernel
timer_add add_timer k = record k { timer_list = place k.timers add_timer k.timer_list }

-- `itr->next`: an element that has left the list is linked to itself.
unfoldable pub next_timer : ℕ → List ℕ → Option ℕ
next_timer i [] = some i
next_timer i (x ∷ []) = if x == i then none else some i
next_timer i (x ∷ y ∷ rest) = if x == i then some y else next_timer i (y ∷ rest)

unfoldable pub list_itr_begin : List ℕ → Option ℕ
list_itr_begin [] = none
list_itr_begin (x ∷ xs) = some x

unfoldable pub count_down : ℕ → Kernel → Kernel
count_down i k =
    set_timer i
      (record (k.timers i) { ticks_rem = sub_ticks (k.timers i).ticks_rem k.timer_tick_unsynch }) k

unfoldable pub reload_all : List ℕ → Kernel → Kernel
reload_all [] k = k
reload_all (i ∷ rest) k =
    reload_all rest
      (timer_add i (set_timer i (record (k.timers i) { ticks_rem = (k.timers i).ticks_reload }) k))

module _ (call : Callback → ℕ → M (Unit {0})) where
  -- A timer that ran out leaves the list and has its function called; with `ticks_reload` it waits on
  -- the second list. Linking it there while it is linked elsewhere is undefined behaviour.
  unfoldable pub time_out : ℕ → List ℕ → M (List ℕ)
  time_out i list_autoreload = do
    modify (λ k. record k { timer_list = erase i k.timer_list })
    k ← get
    call (k.timers i).clbck (k.timers i).param
    k ← get
    if ltb 0 (k.timers i).ticks_reload
        then if mem i k.timer_list then crash else pure (list_autoreload ++ i ∷ [])
        else pure list_autoreload

  -- The first loop of `timer_trigger`, on fuel: a callback that unlinks the next timer makes it spin.
  unfoldable pub trigger_loop : ℕ → Option ℕ → List ℕ → M (List ℕ)
  trigger_loop zero itr list_autoreload k = crash k
  trigger_loop (suc fuel) none list_autoreload k = ok list_autoreload k
  trigger_loop (suc fuel) (some i) list_autoreload k =
      let itr = next_timer i k.timer_list in
      let k1 = count_down i k in
      let later = trigger_loop fuel itr list_autoreload k1 in
      let now = and_then (time_out i list_autoreload k1) (trigger_loop fuel itr) in
      if ltb 0 (k1.timers i).ticks_rem then later else now

  unfoldable pub timer_trigger : ℕ → M (Unit {0})
  timer_trigger fuel = do
    k ← get
    list_autoreload ← trigger_loop fuel (list_itr_begin k.timer_list) []
    modify (λ k. record k { timer_tick_unsynch = 0 })
    modify (reload_all list_autoreload)

  unfoldable pub head_due : Kernel → Bool
  head_due k = elim k.timer_list [
    | [] ↦ false
    | head_timer ∷ rest ↦
        leb (k.timers head_timer).ticks_rem k.timer_tick_unsynch
        || ltb unsynch_max k.timer_tick_unsynch
  ]

  -- The part of `os_tick` that deals with timers.
  unfoldable pub tick_timers : ℕ → M (Unit {0})
  tick_timers fuel = do
    modify (λ k. record k { ticks_cnt = add_ticks k.ticks_cnt 1 })
    k ← get
    if is_empty k.timer_list then pure tt else do
      modify (λ k. record k { timer_tick_unsynch = add_ticks k.timer_tick_unsynch 1 })
      k ← get
      if head_due k then timer_trigger fuel else pure tt

  unfoldable pub os_tick : ℕ → M (Unit {0})
  os_tick fuel = do
    k ← get
    os_assert (ltb 0 k.isr_nesting)
    cristate ← arch_critical_enter
    tick_timers fuel
    os_schedule 0 (in_schedule cristate)
    arch_critical_exit cristate

unfoldable pub os_timers_init : Kernel → Kernel
os_timers_init k = record k { timer_list = [] }

unfoldable pub os_timer_create : ℕ → Callback → ℕ → ℕ → ℕ → M (Unit {0})
os_timer_create timer clbck param timeout_ticks reload_ticks = do
  k ← get
  os_assert (ltb 0 timeout_ticks)
  os_assert (ltb timeout_ticks ticksrem_max)
  os_assert (not ((k.timers timer).magic == magic1))
  cristate ← arch_critical_enter
  modify (λ k.
      set_timer timer
        (record {
          ticks_rem = add_ticks timeout_ticks k.timer_tick_unsynch;
          ticks_reload = reload_ticks;
          clbck = clbck;
          param = param;
          magic = magic1;
        })
        k)
  modify (timer_add timer)
  arch_critical_exit cristate

-- The writes of `os_timer_destroy` to the timer and the list.
unfoldable pub stop_timer : ℕ → Kernel → Kernel
stop_timer timer k =
    if ltb 0 (k.timers timer).ticks_rem
    then set_timer timer
        (record (k.timers timer) { ticks_rem = 0; ticks_reload = 0; magic = magic2 })
        (record k { timer_list = erase timer k.timer_list })
    else set_timer timer (record (k.timers timer) { magic = magic2 }) k

unfoldable pub reset_unsynch : Kernel → Kernel
reset_unsynch k = if is_empty k.timer_list then record k { timer_tick_unsynch = 0 } else k

unfoldable pub os_timer_destroy : ℕ → M (Unit {0})
os_timer_destroy timer = do
  k ← get
  os_assert ((k.timers timer).magic == magic1 || (k.timers timer).magic == magic2)
  cristate ← arch_critical_enter
  modify (stop_timer timer)
  modify reset_unsynch
  arch_critical_exit cristate

unfoldable pub os_ticks_now : Kernel → ℕ
os_ticks_now k = k.ticks_cnt

unfoldable pub os_ticks_diff : ℕ → ℕ → ℕ
os_ticks_diff ticks_start ticks_end =
    if ltb ticks_end ticks_start
    then (ticks_max - ticks_start + 1 + ticks_end) % 2 ^ 16
    else ticks_end - ticks_start
