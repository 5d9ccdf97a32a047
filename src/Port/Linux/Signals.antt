-- ===== src/Port/Linux/Signals.antt =====
-- What arch/linux/arch_port.c calls of the C library and of Linux: functions as an interface, with what
-- their documentation says of them as its laws.
use rados.Base.{ℕ, ◌+◌, ◌≤◌, ◌<◌, ◌≡◌, Bool, true, not, ltb, leb, Option, some, ◌==◌, ◌||◌, ◌&&◌}

-- `sigset_t`: the signals in the set.
abbrev pub Sigset : Type 0
Sigset = ℕ → Bool

pub record Stack : Type 0 where
  pub ss_sp : ℕ
  pub ss_size : ℕ

-- `ucontext_t`, with `uc_mcontext.gregs`, and with `__fpregs_mem` as a number. The kernel keeps the
-- floating point state of a signal at `uc_mcontext.fpregs`, which is not modelled.
pub record Ucontext : Type 0 where
  pub uc_stack : Stack
  pub uc_link : ℕ
  pub gregs : ℕ → ℕ
  pub fpregs_mem : ℕ
  pub uc_sigmask : Sigset

-- The process: its integer registers and signal mask, the variables that the port touches, and the additional
-- mask of the handler of SIGUSR1 where it is installed.
pub record Process : Type 0 where
  pub gregs : ℕ → ℕ
  pub sigmask : Sigset
  pub task_current : ℕ
  pub isr_nesting : ℕ
  pub ctx : ℕ → Ucontext
  pub crit_signals : Sigset
  pub switch_mask : Option Sigset

-- `SIG_BLOCK`, `SIG_UNBLOCK`, `SIG_SETMASK` and `SIGUSR1`.
abbrev pub sig_block : ℕ
sig_block = 0

abbrev pub sig_unblock : ℕ
sig_unblock = 1

abbrev pub sig_setmask : ℕ
sig_setmask = 2

abbrev pub sigusr1 : ℕ
sigusr1 = 10

-- The signals that the bytes of a `sigset_t` have room for.
abbrev pub sigset_size : ℕ
sigset_size = 1024

-- R12 to R15, RBX and RSP, by their places in `gregs`.
abbrev pub is_saved : ℕ → Bool
is_saved i = (leb 4 i && ltb i 8) || i == 11 || i == 15

-- A call that reports an error gives `none`.
pub record Library : Type 0 where
  pub sigfillset : Sigset → Option Sigset
  pub sigdelset : Sigset → ℕ → Option Sigset
  -- The new mask, for a set and the mask before.
  pub sigprocmask : ℕ → Sigset → Sigset → Option Sigset
  -- What `sigprocmask` leaves in the variable for the old mask: the mask, over what the variable held.
  pub stored : Sigset → Sigset → Sigset
  -- `memcmp` of two sets gives 0.
  pub same_bytes : Sigset → Sigset → Bool
  pub getcontext : Process → Option Ucontext
  pub makecontext : Ucontext → ℕ → ℕ → ℕ → Ucontext
  -- The context that a handler is given, and the return from the handler.
  pub delivered : Process → Ucontext
  pub sigreturn : Ucontext → Process → Process

-- The mask holds signals that can be blocked only.
abbrev pub IsMask : (ℕ → Bool) → Sigset → Type 0
IsMask blockable mask = (i : ℕ) → mask i ≡ true → blockable i ≡ true

-- What is documented: signals that cannot be blocked are left out silently, `getcontext` saves the
-- registers that a function keeps for its caller, and a return from a handler restores the integer
-- registers and the signal mask of the context.
pub record Documented (L : Library) (blockable : ℕ → Bool) : Type 0 where
  pub sigusr1_blockable : blockable sigusr1 ≡ true
  pub sigfillset :
      (s : Sigset) → (s' : Sigset) × (L.sigfillset s ≡ some s') × ((i : ℕ) → s' i ≡ true)
  pub sigdelset :
      (s : Sigset) (n : ℕ)
      → (s' : Sigset) × (L.sigdelset s n ≡ some s') × ((i : ℕ) → s' i ≡ (not (i == n) && s i))
  pub block :
      (set mask : Sigset)
      → (new : Sigset) × (L.sigprocmask sig_block set mask ≡ some new)
        × ((i : ℕ) → new i ≡ (blockable i && (mask i || set i)))
  pub unblock :
      (set mask : Sigset)
      → (new : Sigset) × (L.sigprocmask sig_unblock set mask ≡ some new)
        × ((i : ℕ) → new i ≡ (mask i && not (set i)))
  pub setmask :
      (set mask : Sigset)
      → (new : Sigset) × (L.sigprocmask sig_setmask set mask ≡ some new)
        × ((i : ℕ) → new i ≡ (blockable i && set i))
  -- The kernel knows the first signals of a set and writes those.
  pub known : ℕ
  pub blockable_known : (i : ℕ) → blockable i ≡ true → i < known
  pub stored_known : (mask old : Sigset) (i : ℕ) → i < known → L.stored mask old i ≡ mask i
  pub stored_rest : (mask old : Sigset) (i : ℕ) → known ≤ i → L.stored mask old i ≡ old i
  pub known_small : known ≤ sigset_size
  pub same_bytes :
      (s t : Sigset) → ((i : ℕ) → i < sigset_size → s i ≡ t i) → L.same_bytes s t ≡ true
  pub bytes_same : (s t : Sigset) → L.same_bytes s t ≡ true → (i : ℕ) → i < sigset_size → s i ≡ t i
  pub getcontext :
      (m : Process)
      → (uc : Ucontext) × (L.getcontext m ≡ some uc)
        × ((i : ℕ) → is_saved i ≡ true → uc.gregs i ≡ m.gregs i)
        × ((i : ℕ) → uc.uc_sigmask i ≡ m.sigmask i)
  -- The context starts the function with its two arguments, on the given stack.
  pub makecontext :
      (uc : Ucontext) (start first second : ℕ)
      → let made = L.makecontext uc start first second in
        (made.gregs 16 ≡ start)
        × (made.gregs 8 ≡ first)
        × (made.gregs 9 ≡ second)
        × (uc.uc_stack.ss_sp ≤ made.gregs 15)
        × (made.gregs 15 ≤ uc.uc_stack.ss_sp + uc.uc_stack.ss_size)
        × ((i : ℕ) → made.uc_sigmask i ≡ uc.uc_sigmask i)
  pub delivered_gregs : (m : Process) (i : ℕ) → (L.delivered m).gregs i ≡ m.gregs i
  pub delivered_sigmask : (m : Process) (i : ℕ) → (L.delivered m).uc_sigmask i ≡ m.sigmask i
  pub returned_gregs :
      (uc : Ucontext) (m : Process) (i : ℕ) → i < 18 → (L.sigreturn uc m).gregs i ≡ uc.gregs i
  pub returned_sigmask :
      (uc : Ucontext) (m : Process) (i : ℕ)
      → (L.sigreturn uc m).sigmask i ≡ (blockable i && uc.uc_sigmask i)
  -- The variables of the program are none of the kernel's.
  pub returned_rest :
      (uc : Ucontext) (m : Process)
      → ((L.sigreturn uc m).task_current ≡ m.task_current)
        × ((L.sigreturn uc m).isr_nesting ≡ m.isr_nesting)
        × ((L.sigreturn uc m).ctx ≡ m.ctx)
        × ((L.sigreturn uc m).crit_signals ≡ m.crit_signals)
