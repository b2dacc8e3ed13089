-- ===== src/Uart/Race.antt =====
-- `uart_recv_tsk` and `uart_send_tsk` of uart/ share `free_flag` without a common lock: an answer
-- that comes while a message for the frame is still queued or being sent.
use multi_port_convertor.Base.{
  ℕ, ◌≡◌, ap, true, List, [], ◌∷◌, ◌++◌, arith, done, has, has-append, Outcome, ◌>>=◌,
}
use multi_port_convertor.Tool.Mailbox.{Message}
use multi_port_convertor.Uart.Frame.{CmdFormat, procotol_check, bytes_of}
use multi_port_convertor.Uart.State.{Uart}
use multi_port_convertor.Uart.Poll.{reply, poll_action}
use multi_port_convertor.Uart.Poll.Pass.{action_on}
use multi_port_convertor.Uart.Send.{send_loop, after_send, uart_send}
use multi_port_convertor.Uart.Parse.{Surroundings, uart_protocol_parse}
use multi_port_convertor.Uart.Parse.Acks.{responses, IsFirst, flag_one, parse-response}

-- The response is handled, and then the message.
unfoldable pub answer_then_send :
    Surroundings → CmdFormat → Message → List ℕ → Uart → Outcome (List ℕ × Uart)
answer_then_send env cmd msg writes u =
    uart_protocol_parse env cmd u >>= λ r. uart_send msg writes r.0

has-middle : (b : ℕ) (before after : List ℕ) → has b (before ++ (b ∷ after)) ≡ true
has-middle b before after = ground (arith, has-append b before (b ∷ after))

-- If a response to the first waiting frame with its sequence number is handled before a message for
-- that frame, the buffer of the frame is among the free ones while it stays in the send list, and
-- the next pass treats it as an answer and posts it.
pub answer_then_send-double :
    (env : Surroundings) (cmd : CmdFormat) (msg : Message) (writes sent : List ℕ) (u : Uart)
    (before after : List ℕ)
    → procotol_check cmd ≡ done true
    → has cmd.cmd_id responses ≡ true
    → IsFirst cmd.sn u before msg.p after
    → send_loop writes (bytes_of (u.formats msg.p).cmd) 0 msg.data_len ≡ done sent
    → (v : Uart) × (answer_then_send env cmd msg writes u ≡ done (sent, v))
      × (has msg.p v.free ≡ true)
      × (has msg.p v.sends ≡ true)
      × (action_on v msg.p ≡ reply)
unfolding answer_then_send uart_send poll_action
answer_then_send-double env cmd msg writes sent u before after v h f s =
    let w = after_send msg.p (flag_one msg.p u) in
    let same : ((flag_one msg.p u).formats msg.p).cmd ≡ (u.formats msg.p).cmd = ground arith in
    (
      w,
      rw (parse-response env cmd u before msg.p after v h f) (rw same (rw s)),
      ground (arith, has-append msg.p u.free (msg.p ∷ [])),
      ground (arith, ap (has msg.p) f.listed, has-middle msg.p before after),
      ground arith,
    )
