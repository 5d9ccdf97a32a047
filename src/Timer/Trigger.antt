-- ===== src/Timer/Trigger.antt =====
-- The first loop of `timer_trigger`, where the functions of timers leave the timers alone.
use rados.Base.{
  ℕ, zero, suc, ◌^◌, ◌≤◌, ◌<◌, ◌≡◌, refl, ◌∙◌, ap, inl, inr, true, false, some, List, [], ◌∷◌, ◌++◌,
  arith, ◌==◌, ltb, if◌then◌else◌, Bool-cases, length, mem, Distinct, Distinct-append,
}
use mathlib.Core.List.{append_assoc, append-nil}
use rados.Kernel.{Kernel, Timer, Callback}
use rados.Kernel.Run.{M, ok}
use rados.Timer.Quiet.{Quiet, is_due, pending, due, restarting, counted, logged}
use rados.Timer.{list_itr_begin, count_down, trigger_loop}
use rados.Timer.Step.{timed_out, later_lem, now_lem}

module _ (call : Callback → ℕ → M (Unit {0})) (log : Kernel → List (Callback × ℕ))
    (q : Quiet call log) where
  -- What the loop does to the timers `todo`, of which `timers` gives the fields.
  pub record Triggered (timers : ℕ → Timer) (unsynch : ℕ) (done todo auto : List ℕ) (k k' : Kernel)
      : Type 0 where
    pub list : k'.timer_list ≡ done ++ pending timers unsynch todo
    pub unsynch_same : k'.timer_tick_unsynch ≡ unsynch
    pub counted_down :
        (j : ℕ) → k'.timers j ≡ (if mem j todo then counted unsynch (k.timers j) else k.timers j)
    pub fired : log k' ≡ logged timers (due timers unsynch todo) (log k)

  restarting_step :
      (timers : ℕ → Timer) (unsynch i : ℕ) (rest auto : List ℕ) (k : Kernel)
      → k.timers i ≡ timers i
      → is_due timers unsynch i ≡ true
      → (auto ++ (if ltb 0 (k.timers i).ticks_reload then i ∷ [] else []))
          ++ restarting timers unsynch rest
        ≡ auto ++ restarting timers unsynch (i ∷ rest)
  restarting_step timers unsynch i rest auto k ei over =
      elim (Bool-cases (ltb 0 (timers i).ticks_reload)) [
        | inl again ↦ rw (ei, over, again, append_assoc) refl
        | inr once ↦ rw (ei, over, once, append-nil) refl
      ]

  ended :
      (fuel : ℕ) (auto : List ℕ) (k : Kernel)
      → trigger_loop call (suc fuel) (list_itr_begin []) auto k ≡ ok auto k
  unfolding trigger_loop list_itr_begin
  ended fuel auto k = refl

  begun :
      (fuel i : ℕ) (rest auto : List ℕ) (k : Kernel)
      → trigger_loop call fuel (list_itr_begin (i ∷ rest)) auto k
        ≡ trigger_loop call fuel (some i) auto k
  unfolding list_itr_begin
  begun fuel i rest auto k = refl

  -- One more timer was counted down, and perhaps called, before the rest.
  module _ (timers : ℕ → Timer) (unsynch i : ℕ) (done rest auto : List ℕ) (k k' : Kernel)
      (eu : k.timer_tick_unsynch ≡ unsynch) (ei : k.timers i ≡ timers i)
      (no_back : mem i rest ≡ false) (ahead : unsynch ≤ (timers i).ticks_rem)
      (small : (timers i).ticks_rem < 2 ^ 16) where
    down_timers :
        (j : ℕ)
        → (count_down i k).timers j ≡ (if j == i then counted unsynch (k.timers i) else k.timers j)
    unfolding count_down
    down_timers j = ground arith

    down_log : log (count_down i k) ≡ log k
    unfolding count_down
    down_log = q.apart k _ k.timer_list k.timer_tick_unsynch k.ticks_cnt

    out_timers :
        (j : ℕ)
        → (timed_out call log q i (done ++ rest) k).timers j
          ≡ (if j == i then counted unsynch (k.timers i) else k.timers j)
    out_timers j = rw q.timers (down_timers j)

    out_log :
        log (timed_out call log q i (done ++ rest) k) ≡ ((timers i).clbck, (timers i).param) ∷ log k
    unfolding count_down
    out_log =
        let param : ((count_down i k).timers i).param ≡ (timers i).param = ground arith in
        let clbck : ((count_down i k).timers i).clbck ≡ (timers i).clbck = ground arith in
        let before : log (record (count_down i k) { timer_list = done ++ rest }) ≡ log k =
          q.apart k (count_down i k).timers (done ++ rest) k.timer_tick_unsynch k.ticks_cnt in
        q.logs ((count_down i k).timers i).clbck ((count_down i k).timers i).param
          (record (count_down i k) { timer_list = done ++ rest })
        ∙ cc (param, clbck, before)

    later-Triggered :
        is_due timers unsynch i ≡ false
        → Triggered timers unsynch (done ++ i ∷ []) rest auto (count_down i k) k'
        → Triggered timers unsynch done (i ∷ rest) auto k k'
    later-Triggered late t = record {
      list = rw late (rw append_assoc at t.list);
      unsynch_same = t.unsynch_same;
      counted_down = λ j. ground (arith, t.counted_down j, down_timers j);
      fired = rw late (t.fired ∙ ap (λ l. logged timers (due timers unsynch rest) l) down_log);
    }

    now-Triggered :
        is_due timers unsynch i ≡ true
        → (auto' : List ℕ)
        → Triggered timers unsynch done rest auto' (timed_out call log q i (done ++ rest) k) k'
        → Triggered timers unsynch done (i ∷ rest) auto k k'
    now-Triggered over auto' t = record {
      list = rw over t.list;
      unsynch_same = t.unsynch_same;
      counted_down = λ j. ground (arith, t.counted_down j, out_timers j);
      fired = rw over (t.fired ∙ ap (λ l. logged timers (due timers unsynch rest) l) out_log);
    }

  pub trigger_loop-Triggered :
      (timers : ℕ → Timer) (unsynch fuel : ℕ) (done todo auto : List ℕ) (k : Kernel)
      → k.timer_list ≡ done ++ todo
      → k.timer_tick_unsynch ≡ unsynch
      → Distinct (done ++ todo)
      → ((j : ℕ) → mem j todo ≡ true → k.timers j ≡ timers j)
      → ((j : ℕ)
          → mem j todo ≡ true
          → (unsynch ≤ (timers j).ticks_rem) × ((timers j).ticks_rem < 2 ^ 16))
      → length todo < fuel
      → (k' : Kernel) × (trigger_loop call fuel (list_itr_begin todo) auto k
          ≡ ok (auto ++ restarting timers unsynch todo) k')
        × Triggered timers unsynch done todo auto k k'
  trigger_loop-Triggered timers unsynch zero done todo auto k listed eu d same range h =
      absurd (omega arith)
  trigger_loop-Triggered timers unsynch (suc fuel) done [] auto k listed eu d same range h = (
    k,
    rw append-nil (ended fuel auto k),
    record { list = listed; unsynch_same = eu; counted_down = λ j. refl; fired = refl },
  )
  trigger_loop-Triggered timers unsynch (suc fuel) done (i ∷ rest) auto k listed eu d same range h =
      let ei : k.timers i ≡ timers i = same i (ground arith) in
      let (no_front, no_back, d2) = Distinct-append i done rest d in
      let (ahead, small) = range i (ground arith) in
      let ahead_k : k.timer_tick_unsynch ≤ (k.timers i).ticks_rem = ground arith in
      let small_k : (k.timers i).ticks_rem < 2 ^ 16 = ground arith in
      let down = down_timers timers unsynch i done rest auto k k eu ei no_back ahead small in
      elim (Bool-cases (is_due timers unsynch i)) [
        | inl over ↦
            let auto' = auto ++ (if ltb 0 (k.timers i).ticks_reload then i ∷ [] else []) in
            let out = out_timers timers unsynch i done rest auto k k eu ei no_back ahead small in
            let (k', e, t) =
              trigger_loop-Triggered timers unsynch fuel done rest auto'
                (timed_out call log q i (done ++ rest) k) (rw q.timer_list refl)
                (rw q.unsynch (unfold count_down in eu)) d2
                (λ j m. ground (arith, same j, out j, no_back)) (λ j m. range j (ground arith))
                (omega arith) in
            (
              k',
              begun (suc fuel) i rest auto k
                  ∙ (now_lem call log q fuel i done rest auto k listed d ahead_k small_k
                        (ground arith)
                      ∙ (e
                          ∙ ap (λ xs. ok xs k')
                              (restarting_step timers unsynch i rest auto k ei over))),
              now-Triggered timers unsynch i done rest auto k k' eu ei no_back ahead small over
                  auto' t,
            )
        | inr late ↦
            let (k', e, t) =
              trigger_loop-Triggered timers unsynch fuel (done ++ i ∷ []) rest auto (count_down i k)
                (unfold count_down in rw append_assoc listed) (unfold count_down in eu)
                (rw append_assoc d) (λ j m. ground (arith, same j, down j, no_back))
                (λ j m. range j (ground arith)) (omega arith) in
            (
              k',
              rw late (
                  begun (suc fuel) i rest auto k
                  ∙ (later_lem call log q fuel i done rest auto k listed d ahead_k small_k
                        (ground arith)
                      ∙ e)),
              later-Triggered timers unsynch i done rest auto k k' eu ei no_back ahead small late t,
            )
      ]
