-- ===== src/Uart/Frame.antt =====
-- The frame of uart/uart_communicat.h, and `check_sum_cal` and `procotol_check` of
-- uart/uart_protocol.c.
pub mod Checksum
use multi_port_convertor.Base.{
  ℕ, ◌+◌, ◌-◌, Bool, true, false, not, List, [], ◌∷◌, ◌++◌, Outcome, done, ◌>>=◌, ltb, ◌==◌,
  if◌then◌else◌, u8, u16, u32, word, take, drop, get_or, read, fetch,
}

-- `UART_PROCOTOL_MAX_LEN`
abbrev pub uart_procotol_max_len : ℕ
uart_procotol_max_len = 129

-- `uart_cmd_format_t`: the fields of `m_cmd_header_t`, and `data`, an array of
-- `UART_PROCOTOL_MAX_LEN` bytes, here `payload`. All fields are bytes, so there is no padding.
pub record CmdFormat : Type 0 where
  pub head : ℕ
  pub length_msb : ℕ
  pub length_lsb : ℕ
  pub sta_param : ℕ
  pub sn : ℕ
  pub pdt_type : ℕ
  pub cmd_id : ℕ
  pub payload : List ℕ

-- The object's bytes from `header.sta_param` on.
abbrev pub covered : CmdFormat → List ℕ
covered f = f.sta_param ∷ f.sn ∷ f.pdt_type ∷ f.cmd_id ∷ f.payload

-- The object's bytes.
abbrev pub bytes_of : CmdFormat → List ℕ
bytes_of f = f.head ∷ f.length_msb ∷ f.length_lsb ∷ covered f

-- The bytes of a buffer read as a `uart_cmd_format_t`.
abbrev pub frame_of : List ℕ → CmdFormat
frame_of b = record {
  head = get_or b 0 0;
  length_msb = get_or b 1 0;
  length_lsb = get_or b 2 0;
  sta_param = get_or b 3 0;
  sn = get_or b 4 0;
  pdt_type = get_or b 5 0;
  cmd_id = get_or b 6 0;
  payload = drop 7 b;
}

-- `(length_msb << 8) + length_lsb`
abbrev pub frame_len : CmdFormat → ℕ
frame_len f = word f.length_msb f.length_lsb

-- The loop of `check_sum_cal`, with its `__u32` sum.
unfoldable pub sum_from : ℕ → List ℕ → ℕ
sum_from tmp [] = tmp
sum_from tmp (x ∷ xs) = sum_from (u32 (tmp + x)) xs

-- `check_sum_cal(p, len)`; the list holds what the object has from `p` on.
unfoldable pub check_sum_cal : List ℕ → ℕ → Outcome ℕ
unfolding sum_from
check_sum_cal p len = do region ← read p (u16 len); done (u8 (sum_from 0 region))

unfoldable pub procotol_check : CmdFormat → Outcome Bool
procotol_check f =
    let data_len = u16 (frame_len f) in
    let checked = do
      check_value ← check_sum_cal (covered f) data_len
      sent ← fetch f.payload (data_len - 4)
      done (sent == check_value)
    in if ltb data_len 4 then done false else checked
