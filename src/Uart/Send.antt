-- ===== src/Uart/Send.antt =====
-- `uart_send_tsk` of uart/uart_communicat.c: the frames that are posted go to the serial port.
pub mod Wire
use multi_port_convertor.Base.{
  ℕ, ◌+◌, ◌-◌, ◌*◌, List, [], ◌∷◌, ◌++◌, Outcome, done, ◌>>=◌, ltb, ◌==◌, if◌then◌else◌, take, drop,
  read,
}
use multi_port_convertor.Tool.FreeList
use multi_port_convertor.Tool.Mailbox.{Message}
use multi_port_convertor.Uart.Frame.{bytes_of}
use multi_port_convertor.Uart.State.{zero_poll, SendFormat, Uart, update}

-- `sizeof(uart_cmd_format_t)`
abbrev pub cmd_size : ℕ
cmd_size = 136

-- The inner loop, over the bytes of the object `Data_OutMbx->cmd`: what the port takes. The list is
-- what the calls of `write` return, with 0 for an error; where it ends, the next call fails.
-- `&(Data_OutMbx->cmd) + nhas_send` counts in objects of `cmd_size` bytes.
unfoldable pub send_loop : List ℕ → List ℕ → ℕ → ℕ → Outcome (List ℕ)
send_loop [] object nhas_send data_len = done []
send_loop (nsend ∷ later) object nhas_send data_len =
    let rest = send_loop later object (nhas_send + nsend) data_len in
    let written = do
      src ← read (drop (nhas_send * cmd_size) object) (data_len - nhas_send)
      sent ← rest
      done (take nsend src ++ sent)
    in if ltb nhas_send data_len then if nsend == 0 then done [] else written else done []

-- What follows the loop.
abbrev pub after_send : ℕ → Uart → Uart
after_send b u =
    let s = u.formats b in
    if s.poll.free_flag == 0 then u else record u {
      formats = update u.formats b (record s { poll = zero_poll });
      free = FreeList.recycle u.free b;
    }

-- One round of the task with the message that `mailbox_pend` returned: the bytes that the port took,
-- and the state.
unfoldable pub uart_send : Message → List ℕ → Uart → Outcome (List ℕ × Uart)
unfolding send_loop
uart_send msg writes u = do
  sent ← send_loop writes (bytes_of (u.formats msg.p).cmd) 0 msg.data_len
  done (sent, after_send msg.p u)
