-- ===== src/Tool/Thread.antt =====
-- tool/thread.h and tool/thread.c: how the tasks of the program are started.
use multi_port_convertor.Base.{
  ℕ, ◌+◌, ◌^◌, ◌≡◌, refl, Bool, true, false, ◌&&◌, Option, arith, Outcome, done, exits, ◌>>◌,
  Bool-cases, inl, inr, ltb, leb, ◌==◌, if◌then◌else◌,
}

-- What the calls of the library return, 0 for success. `create` gives the new thread where it
-- succeeds; `stack_min` is `PTHREAD_STACK_MIN`.
pub record Pthread : Type 0 where
  pub init : ℕ
  pub setschedpolicy : ℕ
  pub priority_max : ℕ
  pub setschedparam : ℕ
  pub setstacksize : ℕ → ℕ
  pub create : Option ℕ
  pub destroy : ℕ
  pub stack_min : ℕ

-- `if (res != 0) ERROR(...)`
abbrev pub check : ℕ → Outcome (Unit {0})
check res = if res == 0 then done tt else exits

module _ (p : Pthread) where
  -- `(0 > priority) || (priority > priority_max)` is an error; `priority` is the 32-bit pattern of
  -- an `int`.
  abbrev pub in_range : ℕ → Bool
  in_range priority = ltb priority (2 ^ 31) && leb priority p.priority_max

  -- `add_new_thread_prepare`
  unfoldable pub add_new_thread_prepare : (priority stacksize : ℕ) → Outcome (Unit {0})
  add_new_thread_prepare priority stacksize = do
    check p.setschedpolicy
    (if in_range priority then done tt else exits)
    check p.setschedparam
    (if stacksize == 0 then done tt else check (p.setstacksize (stacksize + p.stack_min)))

  -- `add_new_thread`: what it returns is `none` where the variable `id` was never written. Neither
  -- the result of `pthread_create` nor that of `pthread_attr_destroy` is stored in `res`, so that the
  -- tests behind them see that of `pthread_attr_init`.
  unfoldable pub add_new_thread : (priority stacksize : ℕ) → Outcome (Option ℕ)
  unfolding add_new_thread_prepare
  add_new_thread priority stacksize = do
    check p.init
    add_new_thread_prepare priority stacksize
    check p.init
    check p.init
    done p.create

  -- All calls before the creation succeed.
  pub record Accepts (priority stacksize : ℕ) : Type 0 where
    pub init : p.init ≡ 0
    pub policy : p.setschedpolicy ≡ 0
    pub range : in_range priority ≡ true
    pub param : p.setschedparam ≡ 0
    pub stack : (stacksize == 0) ≡ false → p.setstacksize (stacksize + p.stack_min) ≡ 0

  -- Where the calls before it succeed, `add_new_thread` returns whatever `pthread_create` comes to:
  -- a failure of it does not end the process.
  pub add_new_thread-unchecked :
      (priority stacksize : ℕ)
      → Accepts priority stacksize
      → add_new_thread priority stacksize ≡ done p.create
  unfolding add_new_thread
  add_new_thread-unchecked priority stacksize a =
      rw (a.init, a.policy, a.range, a.param)
        (elim (Bool-cases (stacksize == 0)) [ inl z ↦ rw z refl | inr n ↦ rw (n, a.stack n) refl ])

-- A priority that is negative or too high ends the process.
pub add_new_thread-refused :
    (p : Pthread) (priority stacksize : ℕ)
    → in_range p priority ≡ false
    → add_new_thread p priority stacksize ≡ exits
unfolding add_new_thread
add_new_thread-refused p priority stacksize h = ground arith
