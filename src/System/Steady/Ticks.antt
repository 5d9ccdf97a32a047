-- ===== src/System/Steady/Ticks.antt =====
-- The timer tick leaves the mutexes alone where the functions of the timers do.
use rados.Base.{ℕ, zero, suc, refl, Option, none, some, List, [], ◌∷◌, ltb}
use rados.Kernel.{Kernel, Callback, os_sem_timerclbck, os_waitqueue_timerclbck, user}
use rados.Kernel.Run.{M}
use rados.Timer.{
  time_out, trigger_loop, timer_trigger, tick_timers, os_tick, count_down, reload_all, timer_add,
  next_timer,
}
use rados.System.Tick.{kernel_call}
use rados.System.Steady.{
  SameMtxs, SameMtxs-trans, Steady, Steady-at, SteadyAt-if, at_rules, steady_rules,
  and_then-SameMtxs,
}
use rados.System.Steady.Queues.{Steady-os_schedule}
use rados.System.Steady.Waking.{Steady-time_out_task}

list-SameMtxs : (f : Kernel → List ℕ) (k : Kernel) → SameMtxs k (record k { timer_list = f k })
list-SameMtxs f k = record { mtxs = refl; lists = λ t. refl }

unsynch-SameMtxs :
    (f : Kernel → ℕ) (k : Kernel) → SameMtxs k (record k { timer_tick_unsynch = f k })
unsynch-SameMtxs f k = record { mtxs = refl; lists = λ t. refl }

ticks_cnt-SameMtxs : (f : Kernel → ℕ) (k : Kernel) → SameMtxs k (record k { ticks_cnt = f k })
ticks_cnt-SameMtxs f k = record { mtxs = refl; lists = λ t. refl }

count_down-SameMtxs : (i : ℕ) (k : Kernel) → SameMtxs k (count_down i k)
unfolding count_down
count_down-SameMtxs i k = record { mtxs = refl; lists = λ t. refl }

reload_all-SameMtxs : (is : List ℕ) (k : Kernel) → SameMtxs k (reload_all is k)
unfolding reload_all timer_add
reload_all-SameMtxs [] k = record { mtxs = refl; lists = λ t. refl }
reload_all-SameMtxs (i ∷ is) k =
    SameMtxs-trans (record { mtxs = refl; lists = λ t. refl }) (reload_all-SameMtxs is _)

module _ (call : Callback → ℕ → M (Unit {0}))
    (steady : (c : Callback) (p : ℕ) → Steady (call c p)) where
  Steady-time_out : (i : ℕ) (list_autoreload : List ℕ) → Steady (time_out call i list_autoreload)
  unfolding time_out
  Steady-time_out i list_autoreload = search (steady_rules, list-SameMtxs, steady) depth 12

  Steady-trigger_loop :
      (fuel : ℕ) (itr : Option ℕ) (list_autoreload : List ℕ)
      → Steady (trigger_loop call fuel itr list_autoreload)
  unfolding trigger_loop
  Steady-trigger_loop zero itr list_autoreload = search at_rules
  Steady-trigger_loop (suc fuel) none list_autoreload = search at_rules
  Steady-trigger_loop (suc fuel) (some i) list_autoreload = Steady-at _ λ k.
      let k1 = count_down i k in
      let itr = next_timer i k.timer_list in
      SteadyAt-if k (ltb 0 (k1.timers i).ticks_rem) _ _
        (record {
          leads = λ k' l.
              SameMtxs-trans (count_down-SameMtxs i k)
                ((Steady-trigger_loop fuel itr list_autoreload).at k1 k' l);
        })
        (record {
          leads = λ k' l. SameMtxs-trans (count_down-SameMtxs i k) (
              and_then-SameMtxs (time_out call i list_autoreload k1) (trigger_loop call fuel itr) k1
                k' ((Steady-time_out i list_autoreload).at k1) (Steady-trigger_loop fuel itr) l);
        })

  Steady-timer_trigger : (fuel : ℕ) → Steady (timer_trigger call fuel)
  unfolding timer_trigger
  Steady-timer_trigger fuel =
      search (steady_rules, Steady-trigger_loop, unsynch-SameMtxs, reload_all-SameMtxs) depth 12

  Steady-tick_timers : (fuel : ℕ) → Steady (tick_timers call fuel)
  unfolding tick_timers
  Steady-tick_timers fuel =
      search (steady_rules, Steady-timer_trigger, ticks_cnt-SameMtxs, unsynch-SameMtxs) depth 12

  pub Steady-os_tick : (fuel : ℕ) → Steady (os_tick call fuel)
  unfolding os_tick
  Steady-os_tick fuel = search (steady_rules, Steady-tick_timers, Steady-os_schedule) depth 12

pub Steady-kernel_call :
    (program : ℕ → ℕ → M (Unit {0}))
    → ((f p : ℕ) → Steady (program f p))
    → (c : Callback) (p : ℕ) → Steady (kernel_call program c p)
unfolding kernel_call
Steady-kernel_call program steady os_sem_timerclbck p = Steady-time_out_task p
Steady-kernel_call program steady os_waitqueue_timerclbck p = Steady-time_out_task p
Steady-kernel_call program steady (user f) p = steady f p
