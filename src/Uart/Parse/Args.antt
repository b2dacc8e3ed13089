-- ===== src/Uart/Parse/Args.antt =====
-- `ArgsParam` of uart/uart_protocol.c: where the arguments of a command begin.
use multi_port_convertor.Base.{
  ℕ, zero, suc, ◌+◌, ◌≤◌, ◌≡◌, refl, false, List, [], ◌∷◌, ◌++◌, arith, Option, none, some, Outcome,
  done, faults, ◌>>=◌, leb, ◌==◌, if◌then◌else◌, All, take,
}

-- `ARGV_MAX_NUM`
abbrev pub argv_max_num : ℕ
argv_max_num = 24

-- The loop of `ArgsParam`: `argvlist` holds the sizes from the current one on, `param_line` is where
-- the current argument begins, and `argc` arguments are known. The result are the entries of `argv`
-- that follow. It faults where the sizes have no 0 at their end.
unfoldable pub args_from : (argvlist : List ℕ) → (param_line argc : ℕ) → Outcome (List ℕ)
args_from [] param_line argc = faults
args_from (size ∷ []) param_line argc = faults
args_from (size ∷ following ∷ sizes) param_line argc =
    let begin = param_line + size in
    let rest = args_from (following ∷ sizes) begin (argc + 1) in
    let more = (do
      argv ← if leb argv_max_num (argc + 1) then done [] else rest
      done (begin ∷ argv)) in
    if following == 0 then done [] else more

-- `ArgsParam`: the entries of `argv`, as offsets from `param_line`; `argc` is their number. `none` is
-- NULL.
unfoldable pub args_param : Option (List ℕ) → Outcome (List ℕ)
unfolding args_from
args_param none = done []
args_param (some []) = faults
args_param (some (size ∷ sizes)) =
    let rest = (do argv ← args_from (size ∷ sizes) 0 1; done (0 ∷ argv)) in
    if size == 0 then done [] else rest

-- Where arguments of the sizes begin, one behind the other.
abbrev pub offsets : ℕ → List ℕ → List ℕ
offsets p [] = []
offsets p (n ∷ ns) = p ∷ offsets (p + n) ns

args_from-offsets :
    (size : ℕ) (sizes : List ℕ) (p argc k : ℕ)
    → All (λ n. 1 ≤ n) sizes
    → argc + suc k ≡ argv_max_num
    → args_from (size ∷ (sizes ++ (0 ∷ []))) p argc ≡ done (take (suc k) (offsets (p + size) sizes))
unfolding args_from
args_from-offsets size [] p argc k a h = refl
args_from-offsets size (n ∷ ns) p argc zero a h = ground (arith, a.0)
args_from-offsets size (n ∷ ns) p argc (suc k) a h =
    ground (arith, a.0, args_from-offsets n ns (p + size) (argc + 1) k a.1)

-- For sizes that are not 0, with a 0 behind them, `ArgsParam` gives the places at which arguments
-- of these sizes begin one behind the other, at most 24.
pub args_param-offsets :
    (sizes : List ℕ)
    → All (λ n. 1 ≤ n) sizes
    → args_param (some (sizes ++ (0 ∷ []))) ≡ done (take argv_max_num (offsets 0 sizes))
unfolding args_param
args_param-offsets [] a = refl
args_param-offsets (n ∷ ns) a =
    let z : (n == 0) ≡ false = ground (arith, a.0) in
    rw (z, args_from-offsets n ns 0 1 22 a.1 refl) refl
