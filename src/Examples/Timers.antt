-- ===== src/Examples/Timers.antt =====
-- Timers, where timer 5 has one tick left and starts again, and timer 6 has three.
use rados.Base.{
  ℕ, zero, suc, List, ◌≡◌, ◌||◌, refl, true, false, [], ◌∷◌, arith, ◌==◌, if◌then◌else◌, mem,
}
use rados.Kernel.{Kernel, Timer, Callback, magic1, magic2}
use rados.Kernel.Run.{M, ok, modify}
use rados.Timer.{add_ticks, tick_timers, os_timer_create, os_timer_destroy, os_ticks_diff}
use rados.Timer.Ticks.{os_ticks_diff-add_ticks}
use rados.Timer.Valid.{
  TimersValid, remaining, os_timer_create-TimersValid, os_timer_destroy-TimersValid,
}
use rados.Timer.Quiet.{Quiet}
use rados.Timer.Tick.{Ticked, tick_timers-Ticked}
use rados.Examples.Kernels.{unqueued}

os_ticks_diff-add_ticks_example : os_ticks_diff 65530 (add_ticks 65530 9) ≡ 9
os_ticks_diff-add_ticks_example = os_ticks_diff-add_ticks 65530 9 (omega arith) (omega arith)

abbrev timer_of : ℕ → ℕ → ℕ → ℕ → ℕ → Timer
timer_of f ticks_rem ticks_reload param magic = record {
  ticks_rem = ticks_rem;
  ticks_reload = ticks_reload;
  clbck = Callback.user f;
  param = param;
  magic = magic;
}

abbrev timed : Kernel
timed = record unqueued {
  timers = λ i.
      if i == 5
      then timer_of 1 3 4 1 magic1
      else if i == 6
      then timer_of 2 5 0 2 magic1
      else timer_of 0 0 0 0 magic2;
  timer_list = 5 ∷ 6 ∷ [];
  timer_tick_unsynch = 2;
}

timed-TimersValid : TimersValid timed
timed-TimersValid = record {
  rising = (omega arith, (omega arith, tt));
  distinct = (refl, (refl, tt));
  small = λ i m. ground arith;
  made = λ i m. ground arith;
  unsynch_small = omega arith;
  unsynch_idle = λ e. ground arith;
}

-- Functions of timers that log their calls in memory: the number of calls at address 0, and from
-- address 1 on the calls, the last one first.
abbrev code_of : Callback → ℕ
code_of Callback.os_sem_timerclbck = 0
code_of Callback.os_waitqueue_timerclbck = 1
code_of (Callback.user f) = suc (suc f)

abbrev callback_of : ℕ → Callback
callback_of zero = Callback.os_sem_timerclbck
callback_of (suc zero) = Callback.os_waitqueue_timerclbck
callback_of (suc (suc f)) = Callback.user f

callback_of-code_of : (c : Callback) → callback_of (code_of c) ≡ c
callback_of-code_of Callback.os_sem_timerclbck = refl
callback_of-code_of Callback.os_waitqueue_timerclbck = refl
callback_of-code_of (Callback.user f) = refl

abbrev pushed : Callback → ℕ → (ℕ → ℕ) → ℕ → ℕ
pushed c p memory zero = suc (memory 0)
pushed c p memory (suc zero) = code_of c
pushed c p memory (suc (suc zero)) = p
pushed c p memory (suc (suc (suc a))) = memory (suc a)

abbrev calls_at : ℕ → ℕ → (ℕ → ℕ) → List (Callback × ℕ)
calls_at zero a memory = []
calls_at (suc n) a memory =
    (callback_of (memory (suc a)), memory (suc (suc a))) ∷ calls_at n (suc (suc a)) memory

calls_at-pushed :
    (n a : ℕ) (c : Callback) (p : ℕ) (memory : ℕ → ℕ)
    → calls_at n (suc (suc a)) (pushed c p memory) ≡ calls_at n a memory
calls_at-pushed zero a c p memory = refl
calls_at-pushed (suc n) a c p memory = rw (calls_at-pushed n (suc (suc a)) c p memory) refl

abbrev log_call : Callback → ℕ → M (Unit {0})
log_call clbck param = modify λ k. record k { memory = pushed clbck param k.memory }

abbrev log : Kernel → List (Callback × ℕ)
log k = calls_at (k.memory 0) 0 k.memory

log_call-Quiet : Quiet log_call log
log_call-Quiet = record {
  called = λ c p k. record k { memory = pushed c p k.memory };
  ends = λ c p k. refl;
  timers = λ c p k. refl;
  timer_list = λ c p k. refl;
  unsynch = λ c p k. refl;
  logs = λ c p k. rw (callback_of-code_of c, calls_at-pushed (k.memory 0) 0 c p k.memory) refl;
  apart = λ k timers timer_list unsynch ticks. refl;
}

tick_timers-Ticked_example :
    (k' : Kernel) × (tick_timers log_call 3 timed ≡ ok tt k')
    × Ticked log_call log log_call-Quiet timed k'
tick_timers-Ticked_example =
    tick_timers-Ticked log_call log log_call-Quiet timed timed-TimersValid 3 (λ i m. ground arith)
      (omega arith)

os_timer_create-TimersValid_example :
    (k' : Kernel) × (os_timer_create 7 (Callback.user 0) 3 2 0 timed ≡ ok tt k')
    × TimersValid k'
    × (remaining k' 7 ≡ 2)
    × ((j : ℕ) → mem j k'.timer_list ≡ (j == 7 || mem j timed.timer_list))
    × ((j : ℕ) → (j == 7) ≡ false → k'.timers j ≡ timed.timers j)
    × (k'.timer_tick_unsynch ≡ timed.timer_tick_unsynch)
os_timer_create-TimersValid_example =
    os_timer_create-TimersValid timed timed-TimersValid 7 (Callback.user 0) 3 2 0 (omega arith)
      (omega arith) refl

os_timer_destroy-TimersValid_example :
    (k' : Kernel) × (os_timer_destroy 5 timed ≡ ok tt k')
    × TimersValid k'
    × ((k'.timers 5).ticks_rem ≡ 0)
    × ((k'.timers 5).magic ≡ magic2)
    × ((j : ℕ) → mem j k'.timer_list ≡ (if j == 5 then false else mem j timed.timer_list))
    × ((j : ℕ) → (j == 5) ≡ false → k'.timers j ≡ timed.timers j)
    × ((j : ℕ) → mem j k'.timer_list ≡ true → remaining k' j ≡ remaining timed j)
os_timer_destroy-TimersValid_example = os_timer_destroy-TimersValid timed timed-TimersValid 5 refl
