-- ===== src/Tool/Pool.antt =====
-- A buffer factory of tool/buf_factory.c as an interface: its operations and what its users rely on.
-- Tool/BufFactory/Runs fills it with the factory on the heap.
use multi_port_convertor.Base.{
  ℕ, ◌<◌, ◌≡◌, refl, ap, false, List, [], ◌∷◌, Outcome, done, exits, faults, ◌>>=◌, has,
}
use multi_port_convertor.Tool.FreeList

-- A factory with `n` buffers. `Holds s free` says that the buffers `free` are free in the state `s`, in
-- the order in which they will be handed out.
pub record Pool (n : ℕ) (S : Type 0) : Type 1 where
  pub produce : S → Outcome (ℕ × S)
  pub recycle : ℕ → S → Outcome S
  pub Holds : S → List ℕ → Type 0
  pub produce_first :
      (s : S) (b : ℕ) (free : List ℕ)
      → Holds s (b ∷ free)
      → (t : S) × (produce s ≡ done (b, t)) × Holds t free
  pub produce_none : (s : S) → Holds s [] → produce s ≡ exits
  pub recycle_last :
      (s : S) (b : ℕ) (free : List ℕ)
      → Holds s free
      → b < n
      → has b free ≡ false
      → (t : S) × (recycle b s ≡ done t) × Holds t (FreeList.recycle free b)

-- The queue of free buffers is one.
abbrev pub queue_pool : (n : ℕ) → Pool n (List ℕ)
queue_pool n = record {
  produce = FreeList.produce;
  recycle = λ b free. done (FreeList.recycle free b);
  Holds = λ s free. s ≡ free;
  produce_first = λ s b free e. (free, rw e refl, refl);
  produce_none = λ s e. rw e refl;
  recycle_last = λ s b free e l n. (FreeList.recycle s b, refl, rw e refl);
}

-- What a user does with a factory.
pub data Call : Type 0 where
  producing : Call
  recycling : ℕ → Call

-- Only buffers of the factory are recycled, and none of them twice.
abbrev pub AreLegal : ℕ → List Call → List ℕ → Type 0
AreLegal n [] free = Unit
AreLegal n (producing ∷ cs) [] = Unit
AreLegal n (producing ∷ cs) (b ∷ free) = AreLegal n cs free
AreLegal n (recycling b ∷ cs) free =
    (b < n) × (has b free ≡ false) × AreLegal n cs (FreeList.recycle free b)

abbrev also : {S : Type 0} → ℕ → Outcome (List ℕ × S) → Outcome (List ℕ × S)
also b o = o >>= λ (bs, r). done (b ∷ bs, r)

module _ {n : ℕ} {S : Type 0} (p : Pool n S) where
  -- The buffers that are handed out over the calls, and the state behind them.
  abbrev pub calls : List Call → S → Outcome (List ℕ × S)
  calls [] s = done ([], s)
  calls (producing ∷ cs) s = p.produce s >>= λ (b, t). also b (calls cs t)
  calls (recycling b ∷ cs) s = p.recycle b s >>= calls cs

  -- Both end the process, or they hand out the same buffers and leave the same ones free.
  abbrev pub Same : Outcome (List ℕ × List ℕ) → Outcome (List ℕ × S) → Type 0
  Same (done (bs, free)) (done (cs, t)) = (cs ≡ bs) × p.Holds t free
  Same exits exits = Unit
  Same _ _ = ⊥

  also-Same :
      (b : ℕ) (x : Outcome (List ℕ × List ℕ)) (y : Outcome (List ℕ × S))
      → Same x y
      → Same (also b x) (also b y)
  also-Same b (done (bs, free)) (done (cs, t)) (e, h) = (ap (λ ds. b ∷ ds) e, h)
  also-Same b exits exits h = tt
  also-Same b exits faults h = h
  also-Same b (done x) exits h = h
  also-Same b (done x) faults h = h
  also-Same b exits (done y) h = h
  also-Same b faults y h = absurd h

-- Every factory hands out the buffers that the queue does, over any calls that recycle only buffers
-- of the factory, and none that is free.
pub calls-Same :
    {n : ℕ} {S : Type 0} (p : Pool n S) (cs : List Call) (free : List ℕ) (s : S)
    → p.Holds s free
    → AreLegal n cs free
    → Same p (calls (queue_pool n) cs free) (calls p cs s)
calls-Same p [] free s h l = (refl, h)
calls-Same p (producing ∷ cs) [] s h l = rw (p.produce_none s h) tt
calls-Same {n} p (producing ∷ cs) (b ∷ free) s h l =
    let (t, e, k) = p.produce_first s b free h in
    rw e (also-Same p b (calls (queue_pool n) cs free) (calls p cs t) (calls-Same p cs free t k l))
calls-Same p (recycling b ∷ cs) free s h (lt, new, l) =
    let (t, e, k) = p.recycle_last s b free h lt new in
    rw e (calls-Same p cs (FreeList.recycle free b) t k l)
