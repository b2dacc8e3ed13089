-- ===== src/Uart/Examples/Answers.antt =====
-- Commands of the device and their answers, on concrete frames.
use multi_port_convertor.Base.{
  ℕ, ◌≡◌, ◌≤◌, refl, true, List, [], ◌∷◌, arith, none, done, replicate, has, length,
}
use multi_port_convertor.Tool.Mailbox.{Message}
use multi_port_convertor.Uart.Frame.{CmdFormat, procotol_check, bytes_of}
use multi_port_convertor.Uart.State.{Uart, SystemInfo, NetState}
use multi_port_convertor.Uart.Notify.Frames.{framed, procotol_check-framed}
use multi_port_convertor.Uart.Poll.{reply}
use multi_port_convertor.Uart.Poll.Pass.{action_on}
use multi_port_convertor.Uart.Send.Wire.{send_loop-whole}
use multi_port_convertor.Uart.Reply.Time.{IsSized}
use multi_port_convertor.Uart.Parse.{Surroundings, uart_protocol_parse}
use multi_port_convertor.Uart.Parse.Acks.{flag_one, IsFirst, parse-response, parse-upload}
use multi_port_convertor.Uart.Race.{answer_then_send, answer_then_send-double}
use multi_port_convertor.Uart.Examples.{insert_frame, old, waiting_one}

abbrev pub ports : ℕ → NetState
ports i = record { state = i; course = 2; err = 1 }

abbrev pub system : SystemInfo
system = record {
  firmware_ver = 1 ∷ 0 ∷ 0 ∷ [];
  hardware_ver = 1 ∷ 0 ∷ 0 ∷ [];
  protocol_ver = 1 ∷ 0 ∷ 0 ∷ [];
  mac = 10 ∷ 11 ∷ 12 ∷ 13 ∷ 14 ∷ 15 ∷ [];
  time_valid = 1;
  timezone = 16;
  poweron = 0;
}

abbrev pub around : Surroundings
around = record {
  sys = system;
  net = ports;
  tv_sec = 1500000000;
  access = 0;
  http_up_data_rsp = λ cmd u. done u;
}

-- A command of the device, with the bytes that belong to it.
abbrev asked : ℕ → List ℕ → CmdFormat
asked id content =
    framed (record { cmd_id = id; len = 0; pdt_type = 1; content = []; poll_type = 0 }) 7 content
      old

asked-valid :
    (id : ℕ) (content : List ℕ)
    → length content ≤ 128
    → procotol_check (asked id content) ≡ done true
asked-valid id content h =
    (procotol_check-framed
      (record { cmd_id = id; len = 0; pdt_type = 1; content = []; poll_type = 0 }) 7 content old
      h).0

system-IsSized : IsSized system
system-IsSized = record { firmware = refl; hardware = refl; protocol = refl; address = refl }

-- The waiting notification is the first with its sequence number.
waiting-IsFirst : IsFirst 7 waiting_one [] 4 []
waiting-IsFirst = record { listed = refl; others = tt; same_sn = refl }

parse-response_example :
    uart_protocol_parse around (asked 0x20 []) waiting_one ≡ done (flag_one 4 waiting_one, none)
parse-response_example =
    parse-response around (asked 0x20 []) waiting_one [] 4 [] (asked-valid 0x20 [] (omega arith))
      refl waiting-IsFirst

parse-upload_example :
    uart_protocol_parse around (asked 0x31 (replicate 10 0)) waiting_one
    ≡ done (flag_one 4 waiting_one, none)
parse-upload_example =
    parse-upload around (asked 0x31 (replicate 10 0)) waiting_one waiting_one [] 4 []
      (asked-valid 0x31 (replicate 10 0) (omega arith)) refl refl waiting-IsFirst

abbrev message : Message
message = record { id = 5; prio = 0; p = 4; data_len = 9 }

answer_then_send-double_example :
    (v : Uart) × (answer_then_send around (asked 0x20 []) message (9 ∷ []) waiting_one
      ≡ done (0xD0 ∷ 0 ∷ 5 ∷ 0 ∷ 7 ∷ 0xA1 ∷ 0x20 ∷ 3 ∷ 0xCB ∷ [], v))
    × (has 4 v.free ≡ true)
    × (has 4 v.sends ≡ true)
    × (action_on v 4 ≡ reply)
answer_then_send-double_example =
    answer_then_send-double around (asked 0x20 []) message (9 ∷ [])
      (0xD0 ∷ 0 ∷ 5 ∷ 0 ∷ 7 ∷ 0xA1 ∷ 0x20 ∷ 3 ∷ 0xCB ∷ []) waiting_one [] []
      (asked-valid 0x20 [] (omega arith)) refl waiting-IsFirst
      (send_loop-whole (bytes_of insert_frame) [] 9 (omega arith) (omega arith))
