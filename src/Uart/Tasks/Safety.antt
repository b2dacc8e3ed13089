-- ===== src/Uart/Tasks/Safety.antt =====
-- What holds of uart/ in every state that the tasks reach.
use multi_port_convertor.Base.{
  ℕ, ◌+◌, ◌≤◌, ◌≡◌, [], arith, none, All, ltb, ◌==◌, if◌then◌else◌, count,
}
use multi_port_convertor.Uart.State.{Poll, zero_poll}
use multi_port_convertor.Uart.Tasks.{System, Reach, waiting, buffers}
use multi_port_convertor.Uart.Tasks.Places.{
  Place, outside, is_free, to_answer, to_notify, notified, answered, answering,
}
use multi_port_convertor.Uart.Tasks.Line.{IsFrame, Reach-Inv}

-- How often the task of the messages is the only one to know the buffer.
abbrev pub alone : ℕ → ℕ → ℕ
alone cs pd = if cs == 0 then pd else 0

once :
    {b cf cs pd : ℕ} {p : Poll}
    → Place b cf cs pd p
    → cf + cs + alone cs pd ≡ (if ltb b buffers then 1 else 0)
once (outside l f s q) = ground arith
once (is_free l f s q z) = ground arith
once (to_answer l f s q y) = ground arith
once (to_notify l f s q y g n) = ground arith
once (notified l f s y g n m) = ground arith
once (answered l f s q y g n m) = ground arith
once (answering l f s q g) = ground arith

clean : {b cf cs pd : ℕ} {p : Poll} → Place b cf cs pd p → 1 ≤ cf → (pd ≡ 0) × (p ≡ zero_poll)
clean (is_free l f s q z) h = (q, z)
clean (outside l f s q) h = absurd (omega arith)
clean (to_answer l f s q y) h = absurd (omega arith)
clean (to_notify l f s q y g n) h = absurd (omega arith)
clean (notified l f s y g n m) h = absurd (omega arith)
clean (answered l f s q y g n m) h = absurd (omega arith)
clean (answering l f s q g) h = absurd (omega arith)

module _ {s : System} (r : Reach s) where
  -- In the runs of the port's tasks, in any order and with surroundings that may change at every
  -- step, in which the memory of the 16 buffers of the port is cleared at the start, their data has
  -- its 129 bytes, each call of `uart_protocol_dispose` is one step and so no two of them overlap,
  -- and the port takes each message in one call of `write`, and in which at every step an upload
  -- does no more to the state than to queue frames that pass the check and wait for no answer, no
  -- frame comes with the sequence number of a notification that is not all sent, and no
  -- notification is given up or dropped while a message for it waits: each message that the port
  -- has got is a frame from the start byte of a response to its check sum, which the protocol's
  -- check accepts.
  pub line-IsFrame : All IsFrame s.line
  line-IsFrame = (Reach-Inv r).frames

  -- In the runs of the port's tasks, in any order and with surroundings that may change at every
  -- step, in which the memory of the 16 buffers of the port is cleared at the start, their data has
  -- its 129 bytes, each call of `uart_protocol_dispose` is one step and so no two of them overlap,
  -- and the port takes each message in one call of `write`, and in which at every step an upload
  -- does no more to the state than to queue frames that pass the check and wait for no answer, no
  -- frame comes with the sequence number of a notification that is not all sent, and no
  -- notification is given up or dropped while a message for it waits: each of the 16 buffers is in
  -- exactly one place, once among the free ones, or once in the send list, or in exactly one
  -- message that no list entry stands behind. No other number is anywhere.
  pub buffer_once :
      (b : ℕ)
      → count b s.uart.free
          + count b s.uart.sends
          + alone (count b s.uart.sends) (waiting b s.uart s.hand)
        ≡ (if ltb b buffers then 1 else 0)
  buffer_once b = once ((Reach-Inv r).owned b)

  -- In the runs of the port's tasks, in any order and with surroundings that may change at every
  -- step, in which the memory of the 16 buffers of the port is cleared at the start, their data has
  -- its 129 bytes, each call of `uart_protocol_dispose` is one step and so no two of them overlap,
  -- and the port takes each message in one call of `write`, and in which at every step an upload
  -- does no more to the state than to queue frames that pass the check and wait for no answer, no
  -- frame comes with the sequence number of a notification that is not all sent, and no
  -- notification is given up or dropped while a message for it waits: no message waits for a free
  -- buffer and its `poll` is cleared, so that the next frame in it starts as a new one.
  pub free-clean :
      (b : ℕ)
      → 1 ≤ count b s.uart.free
      → (waiting b s.uart s.hand ≡ 0) × ((s.uart.formats b).poll ≡ zero_poll)
  free-clean b = clean ((Reach-Inv r).owned b)

  -- In the runs of the port's tasks, in any order and with surroundings that may change at every
  -- step, in which the memory of the 16 buffers of the port is cleared at the start, their data has
  -- its 129 bytes, each call of `uart_protocol_dispose` is one step and so no two of them overlap,
  -- and the port takes each message in one call of `write`, and in which at every step an upload
  -- does no more to the state than to queue frames that pass the check and wait for no answer, no
  -- frame comes with the sequence number of a notification that is not all sent, and no
  -- notification is given up or dropped while a message for it waits: a state in which nothing is
  -- queued, in the list, the messages or the sending task, has all of the 16 buffers free.
  pub idle-free :
      s.uart.sends ≡ []
      → s.uart.mailbox ≡ []
      → s.hand ≡ none
      → (b : ℕ) → count b s.uart.free ≡ (if ltb b buffers then 1 else 0)
  idle-free e f g b = ground (arith, buffer_once b)
