-- ===== src/Uart/Parse.antt =====
-- `uart_protocol_parse` of uart/uart_protocol.c: a received frame is checked, looked up in
-- `uart_cmd_list`, answered where the command wants an answer, and otherwise taken for the answer to
-- a notification.
pub mod Answers
pub mod Acks
pub mod Args
use multi_port_convertor.Base.{
  ℕ, ◌+◌, ◌-◌, ◌/◌, Bool, true, false, not, List, [], ◌∷◌, ◌++◌, Option, none, some, Outcome, done,
  ◌>>=◌, ltb, ◌==◌, if◌then◌else◌, u8, u16, put,
}
use multi_port_convertor.Tool.FreeList
use multi_port_convertor.Uart.Frame.{CmdFormat, covered, check_sum_cal, procotol_check}
use multi_port_convertor.Uart.State.{Uart, SendFormat, SystemInfo, NetState, update}
use multi_port_convertor.Uart.Reply.{
  Response, que_sta_rsp, time_sync_rsp, drv_poweron_rsp, print_ask,
}

-- What the callbacks read: the variables of the other parts, the clock, the presence of the printer
-- (what `access` returns), and `http_up_data_rsp`, which is not modelled here: its effect on the
-- state is an argument.
pub record Surroundings : Type 0 where
  pub sys : SystemInfo
  pub net : ℕ → NetState
  pub tv_sec : ℕ
  pub access : ℕ
  pub http_up_data_rsp : CmdFormat → Uart → Outcome Uart

-- The functions of `uart_cmd_list`.
pub data Callback : Type 0 where
  poweron_rsp que_sta_cb time_sync_cb drv_poweron_cb hid_insert_rsp : Callback
  hid_pullout_rsp hid_data_rsp print_sta_rsp print_cb http_up_data_cb : Callback

-- `uart_cmd_list_t`; the argument lists are all the same and lead to `param`, which nothing reads.
pub record Command : Type 0 where
  pub cmdword : ℕ
  pub ackword : ℕ
  pub callback : Callback

abbrev pub command : ℕ → ℕ → Callback → Command
command w a c = record { cmdword = w; ackword = a; callback = c }

abbrev pub uart_cmd_list : List Command
uart_cmd_list =
    command 0x10 0 poweron_rsp
    ∷ command 0x11 0x11 que_sta_cb
    ∷ command 0x12 0x12 time_sync_cb
    ∷ command 0x13 0x13 drv_poweron_cb
    ∷ command 0x20 0 hid_insert_rsp
    ∷ command 0x21 0 hid_pullout_rsp
    ∷ command 0x22 0 hid_data_rsp
    ∷ command 0x24 0 print_sta_rsp
    ∷ command 0x23 0x23 print_cb
    ∷ command 0x31 0 http_up_data_cb
    ∷ []

-- The search of the `for` loop.
unfoldable pub find_command : ℕ → List Command → Option Command
find_command id [] = none
find_command id (c ∷ cs) = if id == c.cmdword then some c else find_command id cs

-- A callback that writes an answer. Its second result is a shell command that it starts.
unfoldable pub write_answer :
    Callback → Surroundings → CmdFormat → Response → Outcome (Response × Option (List ℕ))
write_answer que_sta_cb env cmd r = do r' ← que_sta_rsp env.net cmd r; done (r', none)
write_answer time_sync_cb env cmd r = do r' ← time_sync_rsp env.sys env.tv_sec r; done (r', none)
write_answer drv_poweron_cb env cmd r = do r' ← drv_poweron_rsp env.sys r; done (r', none)
write_answer print_cb env cmd r = print_ask env.access cmd r
write_answer _ env cmd r = done (r, none)

-- A callback of a frame that wants no answer.
unfoldable pub take_notice : Callback → Surroundings → CmdFormat → Uart → Outcome Uart
take_notice http_up_data_cb env cmd u = env.http_up_data_rsp cmd u
take_notice _ env cmd u = done u

-- The header of an answer, before its length.
abbrev pub answer_header : Command → CmdFormat → CmdFormat → CmdFormat
answer_header c cmd old = record old {
  head = 0xD0;
  sta_param = 0;
  sn = cmd.sn;
  pdt_type = cmd.pdt_type;
  cmd_id = c.ackword;
}

-- The answer's length, its check sum behind its data, and its place in the send list.
unfoldable pub finish_answer : ℕ → CmdFormat → Response → Uart → Outcome Uart
finish_answer b header r u = do
  let len = u16 (r.len + 4)
  let cmd = record header { length_msb = u8 (len / 256); length_lsb = u8 len; payload = r.payload }
  check ← check_sum_cal (covered cmd) len
  p ← put r.payload (len - 4) check
  done (record u {
    sends = u.sends ++ (b ∷ []);
    formats = update u.formats b (record {
      poll = record (u.formats b).poll { type = 0 };
      cmd = record cmd { payload = p };
    });
  })

unfoldable pub answer : Surroundings → CmdFormat → Command → Uart → Outcome (Uart × Option (List ℕ))
answer env cmd c u = do
  (b, free) ← FreeList.produce u.free
  let old = (u.formats b).cmd
  (r, shell) ← write_answer c.callback env cmd (record { payload = old.payload; len = 0 })
  u' ← finish_answer b (answer_header c cmd old) r (record u { free = free })
  done (u', shell)

-- The walk over the send list: the first frame with the sequence number gets its flag.
unfoldable pub acknowledge : ℕ → List ℕ → (ℕ → SendFormat) → ℕ → SendFormat
acknowledge sn [] f = f
acknowledge sn (b ∷ bs) f =
    let s = f b in
    if sn == s.cmd.sn
    then update f b (record s { poll = record (s.poll) { free_flag = 1 } })
    else acknowledge sn bs f

unfoldable pub notice : Surroundings → CmdFormat → Command → Uart → Outcome (Uart × Option (List ℕ))
notice env cmd c u = do
  u' ← take_notice c.callback env cmd u
  done (record u' { formats = acknowledge cmd.sn u'.sends u'.formats }, none)

abbrev pub dispatch :
    Surroundings → CmdFormat → Option Command → Uart → Outcome (Uart × Option (List ℕ))
dispatch env cmd none u = done (u, none)
dispatch env cmd (some c) u = if c.ackword == 0 then notice env cmd c u else answer env cmd c u

unfoldable pub uart_protocol_parse :
    Surroundings → CmdFormat → Uart → Outcome (Uart × Option (List ℕ))
uart_protocol_parse env cmd u = do
  valid ← procotol_check cmd
  if valid then dispatch env cmd (find_command cmd.cmd_id uart_cmd_list) u else done (u, none)
