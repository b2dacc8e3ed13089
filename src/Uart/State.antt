-- ===== src/Uart/State.antt =====
-- The variables that the tasks of uart/ share, and those of the program that they read.
use multi_port_convertor.Base.{ℕ, List, if◌then◌else◌, ◌==◌}
use multi_port_convertor.Tool.Mailbox.{Mailbox}
use multi_port_convertor.Uart.Frame.{CmdFormat}

-- `uart_poll_t`
pub record Poll : Type 0 where
  pub delay : ℕ
  pub times : ℕ
  pub type : ℕ
  pub free_flag : ℕ

-- After `memset(&poll, 0, sizeof(uart_poll_t))`.
abbrev pub zero_poll : Poll
zero_poll = record { delay = 0; times = 0; type = 0; free_flag = 0 }

-- `uart_send_format_t`, the memory of one buffer of `g_uart_send_buf`. It is named by the buffer's
-- index, which stands for its `buf` and for the owner of its `list`.
pub record SendFormat : Type 0 where
  pub poll : Poll
  pub cmd : CmdFormat

-- `free` are the buffers of `g_uart_send_buf` that are free, `sends` those in `g_uart_send_list`,
-- both in their order. `mailbox` is the queue `g_uart_mbx_id`, which
-- `mbx_id` names.
-- The static pointer Respdata of `uart_protocol_dispose` is left out: each call sets it before it is
-- read, and calls are taken not to overlap.
pub record Uart : Type 0 where
  pub free : List ℕ
  pub sends : List ℕ
  pub formats : ℕ → SendFormat
  pub mailbox : Mailbox
  pub uart_send_sn : ℕ
  pub mbx_id : ℕ

abbrev pub update : (ℕ → SendFormat) → ℕ → SendFormat → ℕ → SendFormat
update f b s c = if c == b then s else f c

-- `system_info_t` of app/system.h. `timezone` is the 16-bit pattern of the `__s16`.
pub record SystemInfo : Type 0 where
  pub firmware_ver : List ℕ
  pub hardware_ver : List ℕ
  pub protocol_ver : List ℕ
  pub mac : List ℕ
  pub time_valid : ℕ
  pub timezone : ℕ
  pub poweron : ℕ

-- `net_state_t` of net/net.h
pub record NetState : Type 0 where
  pub state : ℕ
  pub course : ℕ
  pub err : ℕ
