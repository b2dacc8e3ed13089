-- ===== src/Uart/Examples/Runs.antt =====
-- A run of all tasks of uart/: a notification is queued, posted, sent, answered and dropped.
use multi_port_convertor.Base.{
  ℕ, ◌+◌, ◌≡◌, refl, true, List, [], ◌∷◌, arith, none, some, done, read, read-done, count,
}
use multi_port_convertor.Tool.Mailbox.{Message, enqueue}
use multi_port_convertor.Uart.Frame.{CmdFormat, procotol_check}
use multi_port_convertor.Uart.Notify.Frames.{
  framed, queued, procotol_check-framed, uart_protocol_dispose-queued,
}
use multi_port_convertor.Uart.Parse.Acks.{flag_one, IsFirst, parse-response}
use multi_port_convertor.Uart.Poll.{uart_poll_pass, poll_walk, poll_entry, poll_action}
use multi_port_convertor.Uart.Send.{uart_send, send_loop}
use multi_port_convertor.Uart.Tasks.{
  System, Reach, here, next, notify, receive, poll_round, pend, send, started, start_of, waiting,
  AllSent,
}
use multi_port_convertor.Uart.Tasks.Receipts.{IsNotifier, nothing}
use multi_port_convertor.Uart.Tasks.Line.{IsFrame}
use multi_port_convertor.Uart.Tasks.Safety.{line-IsFrame, buffer_once, alone}
use multi_port_convertor.Uart.Examples.{insert_info, old, quiet}
use multi_port_convertor.Uart.Examples.Answers.{around}

around-IsNotifier : IsNotifier around
around-IsNotifier = record { http = λ cmd u room. nothing }

abbrev others : List ℕ
others = 1 ∷ 2 ∷ 3 ∷ 4 ∷ 5 ∷ 6 ∷ 7 ∷ 8 ∷ 9 ∷ 10 ∷ 11 ∷ 12 ∷ 13 ∷ 14 ∷ 15 ∷ []

abbrev notified_state : System
notified_state = start_of (queued insert_info (started quiet.formats 9) 0 others (3 ∷ []) old)

run_notified : Reach notified_state
run_notified =
    next (here quiet.formats 9 (λ b. (refl, refl)))
      (notify insert_info (omega arith) (
        uart_protocol_dispose-queued insert_info (started quiet.formats 9) 0 others (3 ∷ []) old
          refl (omega arith) refl refl refl (read-done insert_info.content 1 (omega arith))))
      tt

abbrev posted_state : System
posted_state = start_of (uart_poll_pass notified_state.uart)

run_posted : Reach posted_state
run_posted = next run_notified poll_round (λ b m r. refl)

abbrev message : Message
message = record { id = 9; prio = 0; p = 0; data_len = 9 }

abbrev taken_state : System
taken_state = record {
  uart = record (posted_state.uart) { mailbox = [] };
  hand = some message;
  line = [];
}

run_taken : Reach taken_state
unfolding uart_poll_pass poll_walk poll_entry poll_action enqueue
run_taken = next run_posted (pend refl refl) tt

abbrev frame_bytes : List ℕ
frame_bytes = 0xD0 ∷ 0 ∷ 5 ∷ 0 ∷ 0 ∷ 0xA1 ∷ 0x20 ∷ 3 ∷ 0xC4 ∷ []

abbrev sent_state : System
sent_state = record {
  uart = record (posted_state.uart) { mailbox = [] };
  hand = none;
  line = frame_bytes ∷ [];
}

run_sent : Reach sent_state
unfolding uart_poll_pass poll_walk poll_entry poll_action enqueue uart_send send_loop read
run_sent = next run_taken (send message refl refl) tt

-- The answer of the device.
abbrev reply_frame : CmdFormat
reply_frame =
    framed (record { cmd_id = 0x20; len = 0; pdt_type = 1; content = []; poll_type = 0 }) 0 [] old

reply-valid : procotol_check reply_frame ≡ done true
reply-valid =
    (procotol_check-framed
      (record { cmd_id = 0x20; len = 0; pdt_type = 1; content = []; poll_type = 0 }) 0 [] old
      (omega arith)).0

abbrev answered_state : System
answered_state = record { uart = flag_one 0 sent_state.uart; hand = none; line = frame_bytes ∷ [] }

sent-IsFirst : IsFirst 0 sent_state.uart [] 0 []
unfolding uart_poll_pass poll_walk poll_entry poll_action
sent-IsFirst = record { listed = refl; others = tt; same_sn = refl }

sent_once : AllSent 0 sent_state.uart none
unfolding uart_poll_pass poll_walk poll_entry poll_action
sent_once b m e t = (ground arith, refl)

run_answered : Reach answered_state
run_answered =
    next run_sent
      (receive around reply_frame
        (parse-response around reply_frame sent_state.uart [] 0 [] reply-valid refl sent-IsFirst))
      (around-IsNotifier, sent_once)

abbrev final_state : System
final_state = record {
  uart = uart_poll_pass answered_state.uart;
  hand = none;
  line = frame_bytes ∷ [];
}

run_final : Reach final_state
run_final = next run_answered poll_round (λ b m r. refl)

line-IsFrame_example : IsFrame frame_bytes × Unit {0}
line-IsFrame_example = line-IsFrame run_sent

buffer_once_example :
    count 0 sent_state.uart.free
      + count 0 sent_state.uart.sends
      + alone (count 0 sent_state.uart.sends) (waiting 0 sent_state.uart none)
    ≡ 1
buffer_once_example = buffer_once run_sent 0
