-- ===== src/Timer/Step.antt =====
-- One step of the first loop of `timer_trigger`.
use rados.Base.{
  ℕ, suc, ◌^◌, ◌≤◌, ◌<◌, ◌≡◌, refl, inl, inr, true, false, some, List, [], ◌∷◌, ◌++◌, arith, ltb,
  if◌then◌else◌, Bool-cases, erase-append, mem, mem-append, Distinct, Distinct-append,
}
use mathlib.Core.List.{append-nil}
use rados.Kernel.{Kernel, Callback}
use rados.Kernel.Run.{M, ok}
use rados.Timer.Quiet.{Quiet, is_due}
use rados.Timer.{next_timer, list_itr_begin, count_down, time_out, trigger_loop}

next_timer-append :
    (i : ℕ) (front back : List ℕ)
    → mem i front ≡ false
    → next_timer i (front ++ i ∷ back) ≡ list_itr_begin back
unfolding next_timer list_itr_begin
next_timer-append i [] [] out = ground arith
next_timer-append i [] (y ∷ back) out = ground arith
next_timer-append i (x ∷ []) back out = ground (arith, next_timer-append i [] back)
next_timer-append i (x ∷ y ∷ xs) back out = ground (arith, next_timer-append i (y ∷ xs) back)

module _ (call : Callback → ℕ → M (Unit {0})) (log : Kernel → List (Callback × ℕ))
    (q : Quiet call log) where
  -- The kernel after the due timer `i` has left the list and was called.
  abbrev pub timed_out : ℕ → List ℕ → Kernel → Kernel
  timed_out i left k =
      let k1 = count_down i k in
      q.called (k1.timers i).clbck (k1.timers i).param (record k1 { timer_list = left })

  time_out_lem :
      (i : ℕ) (done rest auto : List ℕ) (k : Kernel)
      → k.timer_list ≡ done ++ i ∷ rest
      → Distinct (done ++ i ∷ rest)
      → time_out call i auto k
        ≡ ok (auto ++ (if ltb 0 (k.timers i).ticks_reload then i ∷ [] else [])) (
            q.called (k.timers i).clbck (k.timers i).param (record k { timer_list = done ++ rest }))
  unfolding time_out
  time_out_lem i done rest auto k listed d =
      let (no_front, no_back, d2) = Distinct-append i done rest d in
      let out : mem i (done ++ rest) ≡ false = ground (arith, mem-append i done rest) in
      elim (Bool-cases (ltb 0 (k.timers i).ticks_reload)) [
        | inl again ↦
            rw
              (
                listed,
                erase-append i done rest no_front,
                q.ends,
                q.timers,
                q.timer_list,
                again,
                out,
              )
              refl
        | inr once ↦
            rw (listed, erase-append i done rest no_front, q.ends, q.timers, once, append-nil) refl
      ]

  module _ (fuel i : ℕ) (done rest auto : List ℕ) (k : Kernel)
      (listed : k.timer_list ≡ done ++ i ∷ rest) (d : Distinct (done ++ i ∷ rest))
      (ahead : k.timer_tick_unsynch ≤ (k.timers i).ticks_rem)
      (small : (k.timers i).ticks_rem < 2 ^ 16) where
    pub later_lem :
        is_due k.timers k.timer_tick_unsynch i ≡ false
        → trigger_loop call (suc fuel) (some i) auto k
          ≡ trigger_loop call fuel (list_itr_begin rest) auto (count_down i k)
    unfolding trigger_loop
    later_lem late =
        let no_front = (Distinct-append i done rest d).0 in
        let more : ltb 0 ((count_down i k).timers i).ticks_rem ≡ true =
          unfold count_down in ground arith in
        let next : next_timer i k.timer_list ≡ list_itr_begin rest =
          rw listed (next_timer-append i done rest no_front) in
        rw (more, next) refl

    pub now_lem :
        is_due k.timers k.timer_tick_unsynch i ≡ true
        → trigger_loop call (suc fuel) (some i) auto k
          ≡ trigger_loop call fuel
              (list_itr_begin rest)
              (auto ++ (if ltb 0 (k.timers i).ticks_reload then i ∷ [] else []))
              (timed_out i (done ++ rest) k)
    unfolding trigger_loop
    now_lem late =
        let no_front = (Distinct-append i done rest d).0 in
        let none_left : ltb 0 ((count_down i k).timers i).ticks_rem ≡ false =
          unfold count_down in ground arith in
        let same : ((count_down i k).timers i).ticks_reload ≡ (k.timers i).ticks_reload =
          unfold count_down in ground arith in
        let next : next_timer i k.timer_list ≡ list_itr_begin rest =
          rw listed (next_timer-append i done rest no_front) in
        rw
          (
            none_left,
            next,
            time_out_lem i done rest auto (count_down i k) (unfold count_down in listed) d,
            same,
          )
          refl
