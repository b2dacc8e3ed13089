-- ===== src/Uart/Parse/Answers.antt =====
-- The frame by which `uart_protocol_parse` of uart/uart_protocol.c answers a command.
use multi_port_convertor.Base.{
  ℕ, ◌+◌, ◌-◌, ◌%◌, ◌≤◌, ◌<◌, ◌≡◌, refl, ap, ◌∙◌, true, false, List, [], ◌∷◌, ◌++◌, arith, Option,
  none, some, Bool, false, ◌⊎◌, inl, inr, done, ◌==◌, length,
}
use multi_port_convertor.Uart.Frame.{CmdFormat, frame_len, procotol_check}
use multi_port_convertor.Uart.State.{Uart, update}
use multi_port_convertor.Uart.Notify.{SendInfo}
use multi_port_convertor.Uart.Notify.Frames.{framed, header_sum, put_check}
use multi_port_convertor.Uart.Reply.Fill.{filled}
use multi_port_convertor.Uart.Reply.Status.{status_bytes, que_sta_rsp-status}
use multi_port_convertor.Uart.Reply.Time.{
  IsSized, poweron_bytes, time_bytes, time_sync_rsp-time, drv_poweron_rsp-poweron,
}
use multi_port_convertor.Uart.Parse.{
  Surroundings, Command, command, que_sta_cb, time_sync_cb, drv_poweron_cb, uart_cmd_list,
  find_command, write_answer, finish_answer, answer, uart_protocol_parse,
}

-- The fields of an answer, as those of a notification that waits for nothing.
abbrev pub answer_info : CmdFormat → ℕ → List ℕ → SendInfo
answer_info cmd ackword out = record {
  cmd_id = ackword;
  len = length out;
  pdt_type = cmd.pdt_type;
  content = out;
  poll_type = 0;
}

-- The state with the answer `out` to `cmd` in the buffer `b`, which held `old`.
abbrev pub answered : Uart → ℕ → List ℕ → CmdFormat → ℕ → List ℕ → List ℕ → Uart
answered u b rest cmd ackword out old = record u {
  free = rest;
  sends = u.sends ++ (b ∷ []);
  formats = update u.formats b (record {
    poll = record (u.formats b).poll { type = 0 };
    cmd = framed (answer_info cmd ackword out) cmd.sn out old;
  });
}

module _ (env : Surroundings) (cmd : CmdFormat) (c : Command) (u : Uart) (b : ℕ)
    (rest out old : List ℕ) (shell : Option (List ℕ)) (free : u.free ≡ b ∷ rest)
    (held : (u.formats b).cmd.payload ≡ old) (room : length old ≡ 129) (small : length out ≤ 128)
    (written : write_answer c.callback env cmd (record { payload = old; len = 0 })
      ≡ done (filled out old, shell)) where
  -- A command whose callback writes `out` is answered by the frame of `out`, with the sequence number
  -- and the product type of the command.
  answer-answered : answer env cmd c u ≡ done (answered u b rest cmd c.ackword out old, shell)
  unfolding answer finish_answer
  answer-answered =
      let w : (length out + 4) % 65536 ≡ length out + 4 = omega arith in
      let k : length out + 4 - 4 ≡ length out = omega arith in
      rw (
        free,
        held,
        written,
        w,
        k,
        header_sum cmd.sn cmd.pdt_type c.ackword out old small room,
        put_check out old _ (omega arith),
      )

parse-answer :
    (env : Surroundings) (cmd : CmdFormat) (u : Uart) (c : Command)
    → procotol_check cmd ≡ done true
    → find_command cmd.cmd_id uart_cmd_list ≡ some c
    → (c.ackword == 0) ≡ false
    → uart_protocol_parse env cmd u ≡ answer env cmd c u
unfolding uart_protocol_parse
parse-answer env cmd u c v f a = rw (v, f, a)

find_command-que_sta : find_command 0x11 uart_cmd_list ≡ some (command 0x11 0x11 que_sta_cb)
unfolding find_command
find_command-que_sta = refl

find_command-time_sync : find_command 0x12 uart_cmd_list ≡ some (command 0x12 0x12 time_sync_cb)
unfolding find_command
find_command-time_sync = refl

find_command-poweron : find_command 0x13 uart_cmd_list ≡ some (command 0x13 0x13 drv_poweron_cb)
unfolding find_command
find_command-poweron = refl

abbrev found : ℕ → Option Command
found id = find_command id uart_cmd_list

module _ (env : Surroundings) (cmd : CmdFormat) (u : Uart) (b : ℕ) (rest old : List ℕ)
    (valid : procotol_check cmd ≡ done true) (free : u.free ≡ b ∷ rest)
    (held : (u.formats b).cmd.payload ≡ old) (room : length old ≡ 129) where
  -- With a free buffer, a status query that passes the check and asks for ports whose known ones
  -- give at most 128 bytes is answered by one frame, queued behind the others in the buffer that
  -- has been free longest: it carries the three bytes of each known port, in the query's order.
  pub parse-que_sta :
      (ports after : List ℕ)
      → cmd.cmd_id ≡ 0x11
      → cmd.payload ≡ ports ++ after
      → frame_len cmd ≡ length ports + 4
      → length (status_bytes env.net ports) ≤ 128
      → uart_protocol_parse env cmd u
        ≡ done (answered u b rest cmd 0x11 (status_bytes env.net ports) old, none)
  unfolding write_answer
  parse-que_sta ports after id e l s =
      parse-answer env cmd u (command 0x11 0x11 que_sta_cb) valid
        (ap found id ∙ find_command-que_sta) refl
      ∙ (answer-answered env cmd (command 0x11 0x11 que_sta_cb) u b rest
          (status_bytes env.net ports) old none free held room s
          (rw (que_sta_rsp-status env.net cmd ports after old e l room) (ground arith)))

  -- With a free buffer and a time zone of 16 bits, a time query that passes the check is answered
  -- by one frame with the seven bytes of the time, queued behind the others.
  pub parse-time_sync :
      cmd.cmd_id ≡ 0x12
      → env.sys.timezone < 65536
      → uart_protocol_parse env cmd u
        ≡ done (answered u b rest cmd 0x12 (time_bytes env.sys env.tv_sec) old, none)
  unfolding write_answer
  parse-time_sync id z =
      parse-answer env cmd u (command 0x12 0x12 time_sync_cb) valid
        (ap found id ∙ find_command-time_sync) refl
      ∙ (answer-answered env cmd (command 0x12 0x12 time_sync_cb) u b rest
          (time_bytes env.sys env.tv_sec) old none free held room (omega arith)
          (rw (time_sync_rsp-time env.sys env.tv_sec old z room).0))

  -- With a free buffer and arrays of the declared sizes, a power-on query that passes the check is
  -- answered by one frame with the power-on state, the versions and the address, queued behind the
  -- others.
  pub parse-drv_poweron :
      cmd.cmd_id ≡ 0x13
      → IsSized env.sys
      → uart_protocol_parse env cmd u
        ≡ done
            (answered u b rest cmd 0x13 (poweron_bytes (env.sys.poweron % 256) env.sys) old, none)
  unfolding write_answer
  parse-drv_poweron id z =
      let (e, l) = drv_poweron_rsp-poweron env.sys old z room in
      parse-answer env cmd u (command 0x13 0x13 drv_poweron_cb) valid
        (ap found id ∙ find_command-poweron) refl
      ∙ (answer-answered env cmd (command 0x13 0x13 drv_poweron_cb) u b rest
          (poweron_bytes (env.sys.poweron % 256) env.sys) old none free held room (omega (arith, l))
          (rw e))

-- A frame whose check ends with false, or whose command is not in the list, leaves the state as it
-- is and starts nothing.
pub parse-ignored :
    (env : Surroundings) (cmd : CmdFormat) (u : Uart) (v : Bool)
    → procotol_check cmd ≡ done v
    → (v ≡ false) ⊎ (find_command cmd.cmd_id uart_cmd_list ≡ none)
    → uart_protocol_parse env cmd u ≡ done (u, none)
unfolding uart_protocol_parse
parse-ignored env cmd u true e (inl h) = cc
parse-ignored env cmd u true e (inr h) = rw (e, h)
parse-ignored env cmd u false e h = rw e
