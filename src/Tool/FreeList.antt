-- ===== src/Tool/FreeList.antt =====
-- A buffer factory of tool/buf_factory.c as its users see it: the buffers that are free, in the
-- order in which they will be handed out. Tool/BufFactory/Refine relates it to the linked
-- lists.
use multi_port_convertor.Base.{ℕ, List, [], ◌∷◌, ◌++◌, Outcome, done, exits}

-- `buf_factory_produce`
abbrev pub produce : List ℕ → Outcome (ℕ × List ℕ)
produce [] = exits
produce (b ∷ free) = done (b, free)

-- `buf_factory_recycle`
abbrev pub recycle : List ℕ → ℕ → List ℕ
recycle free b = free ++ (b ∷ [])
