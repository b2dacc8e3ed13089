-- ===== src/Uart/Receive/Bounds.antt =====
-- The bounds of `uart_recv_buf` in `uart_get_data` of uart/uart_communicat.c.
use multi_port_convertor.Base.{
  ℕ, zero, suc, ◌+◌, ◌≤◌, ◌<◌, ◌≡◌, refl, Bool, true, false, List, [], ◌∷◌, arith, Outcome, done,
  exits, faults, ◌>>=◌, ◌==◌, length, length-set, get_or, set, word, put-done,
}
use multi_port_convertor.Uart.Receive.{
  Receiver, recv_size, Verdict, more, returned, on_byte, uart_get_data, initial,
}

-- What holds between two bytes.
pub record IsValid (r : Receiver) : Type 0 where
  pub size : length r.buf ≡ recv_size
  pub waiting : r.proctol_start ≡ false → r.recv_len ≡ 0
  pub counted :
      3 ≤ r.recv_len
      → (0 < r.data_len)
        × (r.recv_len + r.data_len ≡ word (get_or r.buf 1 0) (get_or r.buf 2 0) + 4)
        × (r.recv_len + r.data_len ≤ 132)

-- What holds when `uart_get_data` returns.
abbrev pub Returned : Bool → Receiver → Type 0
Returned b r =
    IsValid r
    × (b ≡ true → (r.proctol_start ≡ false) × (word (get_or r.buf 1 0) (get_or r.buf 2 0) ≤ 128))

abbrev StepKeeps : Outcome (Receiver × Verdict) → Type 0
StepKeeps (done (r, more)) = IsValid r
StepKeeps (done (r, returned b)) = Returned b r
StepKeeps exits = ⊥
StepKeeps faults = ⊥

get_or-set_ne :
    (xs : List ℕ) (k i b : ℕ) → (i == k) ≡ false → get_or (set xs k b) i 0 ≡ get_or xs i 0
get_or-set_ne [] k i b h = refl
get_or-set_ne (x ∷ xs) zero zero b h = absurd (ground arith)
get_or-set_ne (x ∷ xs) zero (suc i) b h = refl
get_or-set_ne (x ∷ xs) (suc k) zero b h = refl
get_or-set_ne (x ∷ xs) (suc k) (suc i) b h = get_or-set_ne xs k i b (ground arith)

on_byte-IsValid : (ch : ℕ) (r : Receiver) → IsValid r → StepKeeps (on_byte ch r)
unfolding on_byte
on_byte-IsValid ch r v = ground (
  arith,
  put-done r.buf r.recv_len ch,
  length-set r.buf r.recv_len ch,
  get_or-set_ne r.buf r.recv_len 1 ch,
  get_or-set_ne r.buf r.recv_len 2 ch,
)

abbrev pub Keeps : Outcome (Bool × Receiver × List ℕ) → Type 0
Keeps (done (b, r, rest)) = Returned b r
Keeps exits = ⊥
Keeps faults = ⊥

-- From valid static variables and whatever bytes come, `uart_get_data` ends without a write outside
-- `uart_recv_buf` and with valid variables, and where it returns true the length field is at most
-- 128 and the next frame is awaited.
pub uart_get_data-IsValid : (r : Receiver) (chs : List ℕ) → IsValid r → Keeps (uart_get_data r chs)
unfolding uart_get_data
uart_get_data-IsValid r [] v = (v, λ e. cc)
uart_get_data-IsValid r (ch ∷ chs) v =
    next (on_byte ch r) (on_byte-IsValid ch r v) (λ r' v'. uart_get_data-IsValid r' chs v')
  where
    next :
        (o : Outcome (Receiver × Verdict))
        → StepKeeps o
        → ((r' : Receiver) → IsValid r' → Keeps (uart_get_data r' chs))
        → Keeps
            (o >>= λ p. elim p.1 [ more ↦ uart_get_data p.0 chs | returned b ↦ done (b, p.0, chs) ])
    next (done (r', more)) k ih = ih r' k
    next (done (r', returned b)) k ih = k
    next exits k ih = k
    next faults k ih = k

-- The static variables are valid when the program starts.
pub initial-IsValid : IsValid initial
initial-IsValid = record { size = refl; waiting = λ _. refl; counted = λ h. absurd (omega arith) }
