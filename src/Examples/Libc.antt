-- ===== src/Examples/Libc.antt =====
-- A C library that does what is documented for the Linux port.
use rados.Base.{
  ℕ, zero, suc, ◌+◌, ◌<◌, ◌≡◌, refl, Bool, true, false, not, some, arith, ◌==◌, ◌||◌, ◌&&◌, ltb,
  if◌then◌else◌, update, every, every-at,
}
use rados.Port.Linux.Signals.{Sigset, Ucontext, Process, Library, Documented, sigset_size}

-- All 64 signals but SIGKILL and SIGSTOP.
abbrev pub blockable : ℕ → Bool
blockable i = ltb i 65 && not (i == 9 || i == 19 || i == 0)

abbrev same_bit : Bool → Bool → Bool
same_bit true b = b
same_bit false b = not b

abbrev new_mask : ℕ → Sigset → Sigset → Sigset
new_mask how set mask i =
    if how == 0
    then blockable i && (mask i || set i)
    else if how == 1
    then mask i && not (set i)
    else blockable i && set i

abbrev context_of : Process → Ucontext
context_of m = record {
  uc_stack = record { ss_sp = 0; ss_size = 0 };
  uc_link = 0;
  gregs = m.gregs;
  fpregs_mem = 0;
  uc_sigmask = m.sigmask;
}

abbrev pub libc : Library
libc = record {
  sigfillset = λ s. some (λ i. true);
  sigdelset = λ s n. some (λ i. not (i == n) && s i);
  sigprocmask = λ how set mask. some (new_mask how set mask);
  stored = λ mask old i. if ltb i 65 then mask i else old i;
  same_bytes = λ s t. every (λ i. same_bit (s i) (t i)) sigset_size;
  getcontext = λ m. some (context_of m);
  makecontext = λ uc start first second. record uc {
    gregs =
        update (update (update (update uc.gregs 16 start) 8 first) 9 second) 15
          (uc.uc_stack.ss_sp + uc.uc_stack.ss_size);
  };
  delivered = context_of;
  sigreturn = λ uc m. record m { gregs = uc.gregs; sigmask = λ i. blockable i && uc.uc_sigmask i };
}

same_bit_lem : (a b : Bool) → same_bit a b ≡ true → a ≡ b
same_bit_lem true b h = ground arith
same_bit_lem false b h = ground arith

same_bit_refl : (a b : Bool) → a ≡ b → same_bit a b ≡ true
same_bit_refl true b h = ground arith
same_bit_refl false b h = ground arith

every-all : (test : ℕ → Bool) (n : ℕ) → ((i : ℕ) → i < n → test i ≡ true) → every test n ≡ true
unfolding every
every-all test zero all = refl
every-all test (suc top) all =
    let below = every-all test top (λ i lo. all i (omega arith)) in
    let last = all top (omega arith) in ground arith

pub libc-Documented : Documented libc blockable
libc-Documented = record {
  sigusr1_blockable = refl;
  sigfillset = λ s. (_, refl, λ i. refl);
  sigdelset = λ s n. (_, refl, λ i. refl);
  block = λ set mask. (_, refl, λ i. refl);
  unblock = λ set mask. (_, refl, λ i. refl);
  setmask = λ set mask. (_, refl, λ i. refl);
  known = 65;
  blockable_known = λ i h. ground arith;
  stored_known = λ mask old i h. ground arith;
  stored_rest = λ mask old i h. ground arith;
  known_small = omega arith;
  same_bytes = λ s t h.
      every-all (λ i. same_bit (s i) (t i)) sigset_size
        (λ i lo. same_bit_refl (s i) (t i) (h i lo));
  bytes_same = λ s t h i lo.
      same_bit_lem (s i) (t i) (every-at (λ i. same_bit (s i) (t i)) sigset_size i lo h);
  getcontext = λ m. (context_of m, refl, (λ i h. refl), λ i. refl);
  makecontext = λ uc start first second. (refl, refl, refl, ground arith, omega arith, λ i. refl);
  delivered_gregs = λ m i. refl;
  delivered_sigmask = λ m i. refl;
  returned_gregs = λ uc m i h. refl;
  returned_sigmask = λ uc m i. refl;
  returned_rest = λ uc m. (refl, refl, refl, refl);
}
