-- ===== src/Uart/Examples.antt =====
-- Runs of the tasks of uart/ on concrete frames.
mod Answers
mod Uploads
mod Overlaps
mod Runs
mod Lines
use multi_port_convertor.Base.{
  take, read-done, ℕ, zero, suc, ◌+◌, ◌≤◌, ◌≡◌, refl, true, false, List, [], ◌∷◌, ◌++◌, arith, none,
  some, done, faults, replicate, inl, inr, has, Distinct, set,
}
use multi_port_convertor.Uart.Frame.{CmdFormat, procotol_check, frame_len, bytes_of, covered}
use multi_port_convertor.Uart.Frame.Checksum.{IsCorrupted, procotol_check-corrupted}
use multi_port_convertor.Uart.State.{Poll, zero_poll, SendFormat, Uart, SystemInfo, NetState}
use multi_port_convertor.Uart.Receive.{Receiver, initial, uart_get_data}
use multi_port_convertor.Uart.Receive.Bounds.{Keeps, initial-IsValid, uart_get_data-IsValid}
use multi_port_convertor.Uart.Receive.Framing.{resting, uart_get_data-frame, uart_get_data-too_long}
use multi_port_convertor.Uart.Notify.{SendInfo, uart_protocol_dispose}
use multi_port_convertor.Uart.Notify.Frames.{
  framed, queued, procotol_check-framed, IsChecked, uart_protocol_dispose-IsChecked,
  uart_protocol_dispose-queued,
}
use multi_port_convertor.Uart.Poll.{uart_poll_pass, poll_action, release}
use multi_port_convertor.Uart.Poll.Pass.{Passed, action_on, uart_poll_pass-Passed}
use multi_port_convertor.Uart.Poll.Schedule.{notification, schedule, poll_action-answered}
use multi_port_convertor.Uart.Tasks.{pending}
use multi_port_convertor.Uart.Poll.Delivery.{posts_at, passes, passes-delivery}
use multi_port_convertor.Uart.Send.{send_loop}
use multi_port_convertor.Uart.Send.Wire.{send_loop-partial, send_loop-framed}

-- The notification that a device of type 3 has been plugged in.
abbrev pub insert_info : SendInfo
insert_info = record {
  cmd_id = 0x20;
  len = 1;
  pdt_type = 0xA1;
  content = 3 ∷ replicate 127 0;
  poll_type = 1;
}

abbrev pub old : List ℕ
old = replicate 129 0

abbrev pub insert_frame : CmdFormat
insert_frame = framed insert_info 7 (3 ∷ []) old

abbrev pub waiting_format : SendFormat
waiting_format = record { poll = notification; cmd = insert_frame }

abbrev pub empty_frame : CmdFormat
empty_frame = record {
  head = 0;
  length_msb = 0;
  length_lsb = 0;
  sta_param = 0;
  sn = 0;
  pdt_type = 0;
  cmd_id = 0;
  payload = old;
}

-- Three free buffers and nothing to send.
abbrev pub quiet : Uart
quiet = record {
  free = 0 ∷ 1 ∷ 2 ∷ [];
  sends = [];
  formats = λ b. record { poll = zero_poll; cmd = empty_frame };
  mailbox = [];
  uart_send_sn = 7;
  mbx_id = 5;
}

-- One notification waits in the buffer 4.
abbrev pub waiting_one : Uart
waiting_one = record quiet { sends = 4 ∷ []; formats = λ b. waiting_format }

uart_get_data-frame_example :
    uart_get_data
      (resting (replicate 136 0))
      (1 ∷ 2 ∷ 0xC0 ∷ 0 ∷ 4 ∷ 0 ∷ 7 ∷ 0xA1 ∷ 0x20 ∷ 0xC8 ∷ 9 ∷ [])
    ≡ done (true, resting (0xC0 ∷ 0 ∷ 4 ∷ 0 ∷ 7 ∷ 0xA1 ∷ 0x20 ∷ 0xC8 ∷ replicate 128 0), 9 ∷ [])
uart_get_data-frame_example =
    uart_get_data-frame (replicate 136 0) (1 ∷ 2 ∷ []) (0 ∷ 7 ∷ 0xA1 ∷ 0x20 ∷ 0xC8 ∷ []) (9 ∷ []) 0
      4 refl refl refl (omega arith)

uart_get_data-IsValid_example : Keeps (uart_get_data initial (1 ∷ 0xC0 ∷ 0 ∷ 4 ∷ 0 ∷ []))
uart_get_data-IsValid_example =
    uart_get_data-IsValid initial (1 ∷ 0xC0 ∷ 0 ∷ 4 ∷ 0 ∷ []) initial-IsValid

uart_protocol_dispose-IsChecked_example :
    (v : Uart) × (uart_protocol_dispose insert_info quiet ≡ done v)
    × (v.free ≡ 1 ∷ 2 ∷ [])
    × (v.sends ≡ 0 ∷ [])
    × IsChecked (3 ∷ []) (v.formats 0).cmd
    × ((v.formats 0).cmd.sn ≡ 7)
    × ((v.formats 0).cmd.cmd_id ≡ 0x20)
    × (v.uart_send_sn ≡ 8)
uart_protocol_dispose-IsChecked_example =
    uart_protocol_dispose-IsChecked insert_info quiet 0 (1 ∷ 2 ∷ []) (3 ∷ []) refl refl refl
      (omega arith) (read-done insert_info.content 1 (omega arith))

insert_frame-checked : procotol_check insert_frame ≡ done true
insert_frame-checked = (procotol_check-framed insert_info 7 (3 ∷ []) old (omega arith)).0

-- The frame with its product type changed.
abbrev bad_frame : CmdFormat
bad_frame = record insert_frame { pdt_type = 0xA2 }

bad_frame-IsCorrupted : IsCorrupted insert_frame bad_frame 2 0xA2
bad_frame-IsCorrupted = record {
  same_msb = refl;
  same_lsb = refl;
  replaced = refl;
  within = omega arith;
  byte = omega arith;
  was_byte = omega arith;
  differs = λ e. absurd (omega arith);
}

procotol_check-corrupted_example : procotol_check bad_frame ≡ done false
procotol_check-corrupted_example =
    procotol_check-corrupted insert_frame bad_frame 2 0xA2 bad_frame-IsCorrupted (omega arith)
      (omega arith) (omega arith) insert_frame-checked

uart_poll_pass-Passed_example : Passed waiting_one (uart_poll_pass waiting_one)
uart_poll_pass-Passed_example = uart_poll_pass-Passed waiting_one (refl, tt)

passes-delivery_example :
    ((n : ℕ)
      → n ≤ 300
      → (action_on (passes n waiting_one) 4 ≡ schedule n)
        × (pending 4 (passes (suc n) waiting_one).mailbox
            ≡ pending 4 (passes n waiting_one).mailbox + posts_at n)
        × (has 4 (passes n waiting_one).sends ≡ true)
        × (((passes n waiting_one).formats 4).cmd ≡ insert_frame))
    × (has 4 (passes 301 waiting_one).sends ≡ false)
    × (has 4 (passes 301 waiting_one).free ≡ true)
passes-delivery_example = passes-delivery waiting_one 4 (refl, tt) refl refl

send_loop-partial_example : send_loop (4 ∷ 5 ∷ []) (bytes_of insert_frame) 0 9 ≡ faults
send_loop-partial_example =
    send_loop-partial (bytes_of insert_frame) [] 9 4 5 refl (omega arith) (omega arith)
      (omega arith) (omega arith)
