-- ===== src/Port/Linux/Masks.antt =====
-- Critical sections of the Linux port are the signal mask.
use rados.Base.{
  ℕ, ◌<◌, ◌≤◌, ◌≡◌, refl, inl, inr, Bool, true, false, not, some, arith, ◌==◌, ◌&&◌, Bool-cases,
  ltb,
}
use rados.Port.Linux.Signals.{Sigset, Process, Library, Documented, sigusr1, sigset_size, IsMask}
use rados.Port.Linux.{
  change_mask, arch_critical_enter, arch_critical_exit, arch_is_dint, arch_os_init,
}

module _ (L : Library) (blockable : ℕ → Bool) (d : Documented L blockable) where
  -- `crit_signals` as `arch_os_init` leaves it.
  pub record IsPrepared (m : Process) : Type 0 where
    pub known : (i : ℕ) → i < d.known → m.crit_signals i ≡ (blockable i && not (i == sigusr1))
    pub rest : (i : ℕ) → d.known ≤ i → m.crit_signals i ≡ not (i == sigusr1)
    pub installed : m.switch_mask ≡ some m.crit_signals

  pub arch_os_init-IsPrepared :
      (prev_sigmask : Sigset) (m : Process)
      → IsMask blockable m.sigmask
      → (m' : Process) × (arch_os_init L prev_sigmask m ≡ some m')
        × IsPrepared m'
        × ((i : ℕ) → m'.sigmask i ≡ m.sigmask i)
  unfolding arch_os_init
  arch_os_init-IsPrepared prev_sigmask m is_mask =
      let (filled, e1, f) = d.sigfillset m.crit_signals in
      let (set, e2, g) = d.sigdelset filled sigusr1 in
      let (tried, e3, h) = d.setmask set m.sigmask in
      let prev = L.stored m.sigmask prev_sigmask in
      let (restored, e4, r) = d.setmask prev tried in
      (
        record m {
          sigmask = restored;
          crit_signals = L.stored tried set;
          switch_mask = some (L.stored tried set);
        },
        rw (e1, e2, e3, e4) refl,
        record {
          known = λ i lo. ground (arith, d.stored_known tried set i lo, h i, g i, f i);
          rest = λ i hi. ground (arith, d.stored_rest tried set i hi, g i, f i);
          installed = refl;
        },
        λ i.
            ground
              (arith, r i, is_mask i, d.blockable_known i, d.stored_known m.sigmask prev_sigmask i),
      )

  -- A critical section that starts in `m`: the state that it saves, and the process in it.
  pub record IsSection (m : Process) (critical_state : Sigset) (inside : Process) : Type 0 where
    -- Every signal that can be blocked is, but for SIGUSR1, and `arch_is_dint` says so.
    pub blocked : (i : ℕ) → inside.sigmask i ≡ (blockable i && not (i == sigusr1))
    pub is_dint : (current_mask : Sigset) → arch_is_dint L current_mask inside ≡ some true
    -- The end of the section brings back the mask, and changes nothing else.
    pub mask_back : (i : ℕ) → (arch_critical_exit L critical_state inside).sigmask i ≡ m.sigmask i
    pub rest :
        arch_critical_exit L critical_state inside
        ≡ record m { sigmask = (arch_critical_exit L critical_state inside).sigmask }

  module _ (m : Process) (p : IsPrepared m) (is_mask : IsMask blockable m.sigmask)
      (open_signal : m.sigmask sigusr1 ≡ false) where
    is_dint-blocked :
        (m1 : Process)
        → m1.crit_signals ≡ m.crit_signals
        → ((i : ℕ) → m1.sigmask i ≡ (blockable i && not (i == sigusr1)))
        → (current_mask : Sigset) → arch_is_dint L current_mask m1 ≡ some true
    unfolding arch_is_dint
    is_dint-blocked m1 same blocked current_mask =
        let (filled, e, f) = d.sigfillset current_mask in
        let bytes : (i : ℕ) → i < sigset_size → L.stored m1.sigmask filled i ≡ m1.crit_signals i =
          λ i h. elim (Bool-cases (ltb i d.known)) [
            | inl lo ↦
                ground (arith, same, d.stored_known m1.sigmask filled i, blocked i, p.known i)
            | inr hi ↦ ground (
              arith,
              same,
              d.stored_rest m1.sigmask filled i,
              f i,
              p.rest i,
              d.blockable_known sigusr1,
              d.sigusr1_blockable,
            )
          ] in
        let all = d.same_bytes (L.stored m1.sigmask filled) m1.crit_signals bytes in
        rw (e, all) refl

    -- On Linux, with `arch_crit_signals` as `arch_os_init` sets it and SIGUSR1 not blocked: behind
    -- `arch_critical_enter` every signal that can be blocked is, but for SIGUSR1, and
    -- `arch_is_dint` gives true; `arch_critical_exit` with the saved state brings back the signal
    -- mask and changes nothing else.
    pub IsSection-arch_critical_enter :
        (critical_state : Sigset)
        → let entered = arch_critical_enter L critical_state m in IsSection m entered.0 entered.1
    unfolding arch_critical_enter arch_critical_exit change_mask
    IsSection-arch_critical_enter critical_state =
        let (new, e, b) = d.block m.crit_signals m.sigmask in
        let state = L.stored m.sigmask critical_state in
        let (back, e2, b2) = d.setmask state new in
        let inside = record m { sigmask = new } in
        let blocked : (i : ℕ) → new i ≡ (blockable i && not (i == sigusr1)) =
          λ i. ground (arith, b i, is_mask i, d.blockable_known i, p.known i, open_signal) in
        let ends : arch_critical_exit L state inside ≡ record m { sigmask = back } =
          rw (arch_critical_exit, change_mask, e2) refl in
        rw (arch_critical_enter, e)
          (record {
            blocked = blocked;
            is_dint = is_dint-blocked inside refl blocked;
            mask_back = λ i. rw ends (
                ground (
                  arith,
                  b2 i,
                  is_mask i,
                  d.blockable_known i,
                  d.stored_known m.sigmask critical_state i,
                ));
            rest = rw ends refl;
          })
