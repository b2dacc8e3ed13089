-- ===== src/Uart/Reply.antt =====
-- The answers to the commands of the device: the callbacks of uart/uart_protocol.c.
pub mod Plain
pub mod Fill
pub mod Status
pub mod Time
use multi_port_convertor.Base.{
  ℕ, zero, suc, ◌+◌, ◌-◌, ◌/◌, ◌^◌, Bool, true, false, List, [], ◌∷◌, ◌++◌, Option, none, some,
  Outcome, done, faults, ◌>>=◌, ltb, ◌==◌, if◌then◌else◌, u8, u16, word, length, replicate, copy,
  put, fetch,
}
use multi_port_convertor.Uart.Frame.{CmdFormat, frame_len}
use multi_port_convertor.Uart.State.{SystemInfo, NetState}

-- `Respdata->data` and `Respdatalen`.
pub record Response : Type 0 where
  pub payload : List ℕ
  pub len : ℕ

-- `Respdata->data[Respdatalen] = v; Respdatalen += 1;`
unfoldable pub add_byte : ℕ → Response → Outcome Response
add_byte v r = do
  p ← put r.payload r.len (u8 v)
  done (record { payload = p; len = u16 (r.len + 1) })

-- `memcpy(&(Respdata->data[Respdatalen]), src, n); Respdatalen += n;`
unfoldable pub add_bytes : List ℕ → Response → Outcome Response
add_bytes src r = do
  p ← copy r.payload r.len src
  done (record { payload = p; len = u16 (r.len + length src) })

-- The bytes of a `net_state_t`.
abbrev pub net_bytes : NetState → List ℕ
net_bytes n = n.state ∷ n.course ∷ n.err ∷ []

-- `net_state[i]`, for `i` below 4.
abbrev pub net_at : (ℕ → NetState) → ℕ → List ℕ
net_at net i = net_bytes (net i)

-- The loop of `que_sta_rsp` with `rounds` left.
unfoldable pub que_from : (ℕ → NetState) → CmdFormat → ℕ → ℕ → Response → Outcome Response
que_from net cmd zero i r = done r
que_from net cmd (suc rounds) i r = do
  port ← fetch cmd.payload i
  r' ← if ltb port 4 then add_bytes (net_at net port) r else done r
  que_from net cmd rounds (i + 1) r'

-- It runs only on frames that `procotol_check` accepts, whose length is at least 4.
unfoldable pub que_sta_rsp : (ℕ → NetState) → CmdFormat → Response → Outcome Response
que_sta_rsp net cmd r = que_from net cmd (frame_len cmd - 4) 0 r

-- `tv_sec` is what `gettimeofday` gives.
unfoldable pub time_sync_rsp : SystemInfo → ℕ → Response → Outcome Response
time_sync_rsp sys tv_sec r = do
  r ← add_byte sys.time_valid r
  r ← add_byte (sys.timezone / 2 ^ 8) r
  r ← add_byte sys.timezone r
  r ← add_byte (tv_sec / 2 ^ 24) r
  r ← add_byte (tv_sec / 2 ^ 16) r
  r ← add_byte (tv_sec / 2 ^ 8) r
  add_byte tv_sec r

unfoldable pub drv_poweron_rsp : SystemInfo → Response → Outcome Response
drv_poweron_rsp sys r = do
  r ← add_byte sys.poweron r
  r ← add_bytes sys.firmware_ver r
  r ← add_bytes sys.hardware_ver r
  r ← add_bytes sys.protocol_ver r
  add_bytes sys.mac r

-- The text at an address, up to its NUL; it faults where the object has none.
unfoldable pub c_string : List ℕ → Outcome (List ℕ)
c_string [] = faults
c_string (c ∷ cs) = do
  rest ← if c == 0 then done [] else c_string cs
  done (if c == 0 then [] else c ∷ rest)

-- `sprintf(out, fmt)` with no further argument: `%%` is a percent sign, and any other conversion
-- reads an argument that is not there.
unfoldable pub format_alone : List ℕ → Outcome (List ℕ)
format_alone [] = done []
format_alone (c ∷ []) = if c == b'%' then faults else done (c ∷ [])
format_alone (c ∷ d ∷ cs) =
    let plain = (do rest ← format_alone (d ∷ cs); done (c ∷ rest)) in
    let percent = (do rest ← format_alone cs; done (c ∷ rest)) in
    if c == b'%' then if d == b'%' then percent else faults else plain

-- `echo "` and `" > /dev/usb/lp0`
abbrev pub echo_open : List ℕ
echo_open = b'e' ∷ b'c' ∷ b'h' ∷ b'o' ∷ 32 ∷ 34 ∷ []

abbrev pub echo_close : List ℕ
echo_close =
    34 ∷ 32 ∷ b'>' ∷ 32 ∷ b'/' ∷ b'd' ∷ b'e' ∷ b'v' ∷ b'/' ∷ b'u' ∷ b's' ∷ b'b' ∷ b'/' ∷ b'l' ∷ b'p'
    ∷ b'0' ∷ []

-- `access` returns 0 where the device file is there. The second part of the result is the command
-- that goes to `popen`.
unfoldable pub print_ask :
    (access : ℕ) → CmdFormat → Response → Outcome (Response × Option (List ℕ))
print_ask access cmd r =
    let absent = do
      r' ← add_byte 0 r
      text ← c_string cmd.payload
      line ← format_alone text
      done (r', some (echo_open ++ (line ++ echo_close)))
    in let present = (do r' ← add_byte 2 r; done (r', none)) in
      if access == 0 then present else absent
