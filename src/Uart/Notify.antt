-- ===== src/Uart/Notify.antt =====
-- `uart_protocol_dispose` of uart/uart_protocol.c, and the notifications that go through it.
pub mod Overlap
pub mod Frames
pub mod Texts
use multi_port_convertor.Base.{
  ℕ, ◌+◌, ◌/◌, List, [], ◌∷◌, ◌++◌, Outcome, done, ◌>>=◌, ◌==◌, if◌then◌else◌, u8, u32, length,
  read, copy, put,
}
use multi_port_convertor.Tool.FreeList
use multi_port_convertor.Uart.Frame.{CmdFormat, covered, check_sum_cal}
use multi_port_convertor.Uart.State.{Uart, SendFormat, SystemInfo, update}

-- `uart_send_info_t`; `content` is the array `data`, of 128 bytes.
pub record SendInfo : Type 0 where
  pub cmd_id : ℕ
  pub len : ℕ
  pub pdt_type : ℕ
  pub content : List ℕ
  pub poll_type : ℕ

-- The header that is written before the data.
abbrev pub header_written : SendInfo → ℕ → CmdFormat → CmdFormat
header_written info sn cmd =
    let protocol_len = u32 (info.len + 4) in
    record cmd {
      head = 0xD0;
      length_msb = u8 (protocol_len / 256);
      length_lsb = u8 protocol_len;
      sta_param = 0;
      sn = sn;
      pdt_type = info.pdt_type;
      cmd_id = info.cmd_id;
    }

unfoldable pub uart_protocol_dispose : SendInfo → Uart → Outcome Uart
uart_protocol_dispose info u = do
  (b, free) ← FreeList.produce u.free
  let s = u.formats b
  let cmd = header_written info u.uart_send_sn s.cmd
  let copied = (do src ← read info.content info.len; copy cmd.payload 0 src)
  payload ← if info.len == 0 then done cmd.payload else copied
  check ← check_sum_cal (covered (record cmd { payload = payload })) (u32 (info.len + 4))
  payload' ← put payload info.len check
  done (record u {
    free = free;
    sends = u.sends ++ (b ∷ []);
    formats = update u.formats b (record s {
      poll = record (s.poll) { type = info.poll_type };
      cmd = record cmd { payload = payload' };
    });
    uart_send_sn = u8 (u.uart_send_sn + 1);
  })

-- The arrays `data` of the locals `info` are not initialised: `stack` is what they hold.
module _ (stack : List ℕ) where
  unfoldable pub poweron_ntf : SystemInfo → ℕ → Uart → Outcome Uart
  poweron_ntf sys state u = do
    d ← put stack 0 state
    d ← copy d 1 sys.firmware_ver
    d ← copy d 4 sys.hardware_ver
    d ← copy d 7 sys.protocol_ver
    d ← copy d 10 sys.mac
    uart_protocol_dispose
        (record { cmd_id = 0x10; len = 16; pdt_type = 0xFF; content = d; poll_type = 1 }) u

  unfoldable pub err_sta_ntf : ℕ → ℕ → ℕ → Uart → Outcome Uart
  err_sta_ntf state course err u = do
    d ← put stack 0 state
    d ← put d 1 course
    d ← put d 2 err
    uart_protocol_dispose
        (record { cmd_id = 0x1F; len = 3; pdt_type = 0xFF; content = d; poll_type = 0 }) u

  unfoldable pub hid_insert_ntf : ℕ → Uart → Outcome Uart
  hid_insert_ntf dev_type u = do
    d ← put stack 0 dev_type
    uart_protocol_dispose
        (record { cmd_id = 0x20; len = 1; pdt_type = 0xA1; content = d; poll_type = 1 }) u

  unfoldable pub hid_pullout_ntf : ℕ → Uart → Outcome Uart
  hid_pullout_ntf dev_type u = do
    d ← put stack 0 dev_type
    uart_protocol_dispose
        (record { cmd_id = 0x21; len = 1; pdt_type = 0xA1; content = d; poll_type = 1 }) u

  -- `bytes` are the `length` bytes at `data`.
  unfoldable pub hid_data_ntf : List ℕ → ℕ → Uart → Outcome Uart
  hid_data_ntf bytes dev_type u = do
    d ← put stack 0 dev_type
    d ← copy d 1 bytes
    uart_protocol_dispose
        (record {
          cmd_id = 0x22;
          len = u32 (length bytes + 1);
          pdt_type = 0xA1;
          content = d;
          poll_type = 1;
        })
        u

  unfoldable pub http_up_data_ntf : ℕ → Uart → Outcome Uart
  http_up_data_ntf state u = do
    d ← put stack 0 state
    uart_protocol_dispose
        (record { cmd_id = 0x31; len = 1; pdt_type = 0xA1; content = d; poll_type = 0 }) u
