-- ===== src/Timer/Restart.antt =====
-- The end of `timer_trigger`: the timers that start again are put back in order.
use rados.Base.{
  ℕ, ◌-◌, ◌^◌, ◌≤◌, ◌<◌, ◌≡◌, refl, inl, inr, true, false, List, [], ◌∷◌, arith, ◌==◌, ◌||◌, ◌&&◌,
  not, ltb, if◌then◌else◌, Bool-cases, mem, Distinct,
}
use rados.Kernel.{Kernel, Timer, magic1}
use rados.Kernel.Run.{set_timer}
use rados.Timer.{timer_add, reload_all}
use rados.Timer.Rising.{Rising, mem-place}
use rados.Timer.Valid.{TimersValid, created-TimersValid}
use rados.Timer.Quiet.{is_due, pending, due, restarting}

module _ (timers : ℕ → Timer) (unsynch : ℕ) where
  pub mem-pending :
      (j : ℕ) (xs : List ℕ)
      → mem j (pending timers unsynch xs) ≡ (mem j xs && not (is_due timers unsynch j))
  mem-pending j [] = refl
  mem-pending j (x ∷ xs) = ground (arith, mem-pending j xs)

  pub mem-restarting :
      (j : ℕ) (xs : List ℕ)
      → mem j (restarting timers unsynch xs)
        ≡ (mem j xs && (is_due timers unsynch j && ltb 0 (timers j).ticks_reload))
  mem-restarting j [] = refl
  mem-restarting j (x ∷ xs) = ground (arith, mem-restarting j xs)

  pub Distinct-pending : (xs : List ℕ) → Distinct xs → Distinct (pending timers unsynch xs)
  Distinct-pending [] d = tt
  Distinct-pending (x ∷ xs) d = elim (Bool-cases (is_due timers unsynch x)) [
    | inl over ↦ rw over (Distinct-pending xs d.1)
    | inr late ↦ rw late (ground (arith, mem-pending x xs, d.0), Distinct-pending xs d.1)
  ]

  pub Distinct-restarting : (xs : List ℕ) → Distinct xs → Distinct (restarting timers unsynch xs)
  Distinct-restarting [] d = tt
  Distinct-restarting (x ∷ xs) d = elim (Bool-cases (is_due timers unsynch x)) [
    | inl over ↦ elim (Bool-cases (ltb 0 (timers x).ticks_reload)) [
      | inl again ↦
          rw (over, again) (ground (arith, mem-restarting x xs, d.0), Distinct-restarting xs d.1)
      | inr once ↦ rw (over, once) (Distinct-restarting xs d.1)
    ]
    | inr late ↦ rw late (Distinct-restarting xs d.1)
  ]

  pub due-nil :
      (least : ℕ) (xs : List ℕ)
      → unsynch < least
      → Rising timers least xs
      → due timers unsynch xs ≡ []
  due-nil least [] h r = refl
  due-nil least (x ∷ xs) h r =
      let late : is_due timers unsynch x ≡ false = ground (arith, r.0) in
      rw late (due-nil (timers x).ticks_rem xs (omega (arith, r.0)) r.1)

  -- Counting down keeps the order of the timers that stay.
  pub Rising-pending :
      (new : ℕ → Timer) (least low : ℕ) (xs : List ℕ)
      → ((i : ℕ) → mem i xs ≡ true → (new i).ticks_rem ≡ (timers i).ticks_rem - unsynch)
      → ((r : ℕ) → least ≤ r → unsynch < r → low ≤ r - unsynch)
      → Rising timers least xs
      → Rising new low (pending timers unsynch xs)
  Rising-pending new least low [] counted h r = tt
  Rising-pending new least low (x ∷ xs) counted h r =
      let ex : (new x).ticks_rem ≡ (timers x).ticks_rem - unsynch = counted x (ground arith) in
      let rest = λ (i : ℕ) (m : mem i xs ≡ true). counted i (ground arith) in
      elim (Bool-cases (is_due timers unsynch x)) [
        | inl over ↦ rw over (
            Rising-pending new (timers x).ticks_rem low xs rest
              (λ s a b. h s (omega (arith, r.0)) b) r.1)
        | inr late ↦ rw late (
          ground (arith, h (timers x).ticks_rem r.0, ex),
          Rising-pending new (timers x).ticks_rem (new x).ticks_rem xs rest
              (λ s a b. omega (arith, ex)) r.1,
        )
      ]

abbrev pub reloaded : Timer → Timer
reloaded timer = record timer { ticks_rem = timer.ticks_reload }

-- The timers `xs` have started again.
pub record Reloaded (xs : List ℕ) (k k' : Kernel) : Type 0 where
  pub valid : TimersValid k'
  pub listed : (j : ℕ) → mem j k'.timer_list ≡ (mem j xs || mem j k.timer_list)
  pub timers : (j : ℕ) → k'.timers j ≡ (if mem j xs then reloaded (k.timers j) else k.timers j)
  pub unsynch : k'.timer_tick_unsynch ≡ k.timer_tick_unsynch

pub reload_all-Reloaded :
    (xs : List ℕ) (k : Kernel)
    → TimersValid k
    → k.timer_tick_unsynch ≡ 0
    → Distinct xs
    → ((j : ℕ)
        → mem j xs ≡ true
        → (mem j k.timer_list ≡ false)
          × (0 < (k.timers j).ticks_reload)
          × ((k.timers j).ticks_reload < 2 ^ 16)
          × ((k.timers j).magic ≡ magic1))
    → Reloaded xs k (reload_all xs k)
unfolding reload_all
reload_all-Reloaded [] k v e d h = record {
  valid = v;
  listed = λ j. refl;
  timers = λ j. refl;
  unsynch = refl;
}
reload_all-Reloaded (x ∷ xs) k v e d h =
    let (out, more, small, mark) = h x (ground arith) in
    let k1 = timer_add x (set_timer x (reloaded (k.timers x)) k) in
    let v1 = created-TimersValid k v x (reloaded (k.timers x)) out (omega arith) small mark in
    let there : (j : ℕ) → mem j k1.timer_list ≡ (j == x || mem j k.timer_list) =
      λ j. unfold timer_add in mem-place _ x j k.timer_list in
    let same : (j : ℕ) → k1.timers j ≡ (if j == x then reloaded (k.timers x) else k.timers j) =
      λ j. unfold timer_add in ground arith in
    let e1 : k1.timer_tick_unsynch ≡ k.timer_tick_unsynch = unfold timer_add in refl in
    let r =
      reload_all-Reloaded xs k1 v1 (cc) d.1 (λ j m. ground (arith, h j, there j, same j, d.0)) in
    record {
      valid = r.valid;
      listed = λ j. ground (arith, r.listed j, there j);
      timers = λ j. ground (arith, r.timers j, same j, d.0);
      unsynch = cc;
    }
