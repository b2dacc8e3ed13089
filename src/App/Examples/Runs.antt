-- ===== src/App/Examples/Runs.antt =====
-- A run of the whole program: a card reader is found, and its notification is posted.
use multi_port_convertor.Base.{ℕ, refl, List, some, replicate, put, read, copy}
use multi_port_convertor.Tool.Mailbox.{Message}
use multi_port_convertor.Uart.Frame.{check_sum_cal}
use multi_port_convertor.Uart.Notify.{hid_insert_ntf, uart_protocol_dispose}
use multi_port_convertor.Uart.State.{SendFormat, zero_poll}
use multi_port_convertor.Uart.Tasks.{poll_round, IsCleared}
use multi_port_convertor.Usb.Keys.{find_hid_type}
use multi_port_convertor.Usb.Reader.{connect}
use multi_port_convertor.Usb.Tasks.{set_hid, open_round}
use multi_port_convertor.App.Tasks.{Program, Run, start, turn, of_port, of_readers}
use multi_port_convertor.App.Tasks.Safety.{IsSafe, Run-IsSafe}

-- Memory that is zero.
abbrev pub memory : ℕ → SendFormat
memory b = record {
  poll = zero_poll;
  cmd = record {
    head = 0;
    length_msb = 0;
    length_lsb = 0;
    sta_param = 0;
    sn = 0;
    pdt_type = 0;
    cmd_id = 0;
    payload = replicate 129 0;
  };
}

pub memory-IsCleared : IsCleared memory
memory-IsCleared b = (refl, refl)

abbrev pub stack : List ℕ
stack = replicate 128 0

abbrev pub words : ℕ → List ℕ
words b = replicate 8 0

abbrev pub no_message : Message
no_message = record { id = 0; prio = 0; p = 0; data_len = 0 }

run_found : (p : Program) × Run stack words p
unfolding connect set_hid find_hid_type hid_insert_ntf put uart_protocol_dispose read copy
    check_sum_cal
run_found = (
  _,
  turn
      (turn (start memory 3 4 0 no_message memory-IsCleared)
        (of_readers (open_round (some 3) (some 0x7638) refl refl) tt))
      (of_port poll_round (λ b m r. refl)),
)

Run-IsSafe_example : IsSafe run_found.0
Run-IsSafe_example = Run-IsSafe stack words run_found.1
