-- ===== src/Uart/Receive.antt =====
-- `uart_get_data` of uart/uart_communicat.c: the bytes of the serial port are put together to a
-- frame in `uart_recv_buf`.
pub mod Bounds
pub mod Framing
use multi_port_convertor.Base.{
  ℕ, ◌+◌, ◌-◌, Bool, true, false, not, ◌&&◌, ◌||◌, List, [], ◌∷◌, Outcome, done, ◌>>=◌, ltb, ◌==◌,
  if◌then◌else◌, u32, word, get_or, put, replicate,
}
use multi_port_convertor.Uart.Frame.{uart_procotol_max_len}

-- The static variables of `uart_get_data`, with the bytes of `uart_recv_buf`, at which
-- `recv_data_p` points.
pub record Receiver : Type 0 where
  pub proctol_start : Bool
  pub recv_len : ℕ
  pub data_len : ℕ
  pub buf : List ℕ

-- `sizeof(uart_cmd_format_t)`
abbrev pub recv_size : ℕ
recv_size = 136

-- What a byte leads to: the loop goes on, or the function returns.
pub data Verdict : Type 0 where
  more : Verdict
  returned : Bool → Verdict

abbrev idle : Receiver → Receiver
idle r = record r { proctol_start = false; recv_len = 0; data_len = 0 }

-- The third byte completes the length. The sum of three `__u8` cannot wrap in `__u32`.
abbrev on_length : Receiver → Receiver × Verdict
on_length r =
    let data_len = word (get_or r.buf 1 0) (get_or r.buf 2 0) + 1 in
    if data_len == 0
    then (idle r, returned true)
    else if ltb uart_procotol_max_len data_len
    then (idle r, returned false)
    else (record r { data_len = data_len }, more)

abbrev on_rest : Receiver → Receiver × Verdict
on_rest r =
    let data_len = u32 (r.data_len + 4294967295) in
    if data_len == 0
    then (record r { data_len = data_len; recv_len = 0; proctol_start = false }, returned true)
    else (record r { data_len = data_len }, more)

abbrev on_stored : Receiver → Receiver × Verdict
on_stored r =
    if r.recv_len == 3 then on_length r else if ltb 3 r.recv_len then on_rest r else (r, more)

-- The body of the loop for one byte.
unfoldable pub on_byte : ℕ → Receiver → Outcome (Receiver × Verdict)
on_byte ch r =
    let start = r.proctol_start || (ch == 0xC0) in
    let stored = do
      buf ← put r.buf r.recv_len ch
      done (
          on_stored (record {
            proctol_start = true;
            recv_len = r.recv_len + 1;
            data_len = r.data_len;
            buf = buf;
          }))
    in if start then stored else done (r, more)

-- `uart_get_data` on the bytes that `app_uart_get` will return, until a read fails: its result, the
-- static variables afterwards, and the bytes that it has not read.
unfoldable pub uart_get_data : Receiver → List ℕ → Outcome (Bool × Receiver × List ℕ)
uart_get_data r [] = done (false, r, [])
uart_get_data r (ch ∷ chs) = do
  (r', verdict) ← on_byte ch r
  elim verdict [ more ↦ uart_get_data r' chs | returned b ↦ done (b, r', chs) ]

-- The static variables when the program starts.
abbrev pub initial : Receiver
initial = record { proctol_start = false; recv_len = 0; data_len = 0; buf = replicate recv_size 0 }
