-- ===== src/Uart/Tasks/Receipts.antt =====
-- The three things that a received frame can do to the shared state, by `uart_protocol_parse` of
-- uart/uart_protocol.c.
use multi_port_convertor.Base.{
  ℕ, ◌≡◌, refl, Option, none, some, Safe, Safe-bind, Safe-weaken, always, ◌==◌, Bool-cases, inl,
  inr,
}
use multi_port_convertor.Uart.Frame.{CmdFormat, procotol_check}
use multi_port_convertor.Uart.State.{Uart}
use multi_port_convertor.Uart.Parse.{
  Surroundings, Command, Callback, que_sta_cb, time_sync_cb, drv_poweron_cb, print_cb,
  http_up_data_cb, poweron_rsp, hid_insert_rsp, hid_pullout_rsp, hid_data_rsp, print_sta_rsp,
  uart_cmd_list, find_command, take_notice, answer, notice, dispatch, uart_protocol_parse,
}
use multi_port_convertor.Uart.Parse.Acks.{acknowledged}
use multi_port_convertor.Uart.Tasks.Effects.{Queues, Rooms}
use multi_port_convertor.Uart.Tasks.Answers.{answer-Queues}

-- Some answers are queued, one after the other.
pub data Queuing (u : Uart) : Uart → Type 0 where
  nothing : Queuing u u
  one_more : {v w : Uart} → Queuing u v → Queues 0 v w → Queuing u w

-- All that `http_up_data_rsp` does to the shared state is to notify the device.
pub record IsNotifier (env : Surroundings) : Type 0 where
  pub http : (cmd : CmdFormat) (u : Uart) → Rooms u → Safe (Queuing u) (env.http_up_data_rsp cmd u)

-- A frame leaves the state as it is, is answered, or marks a frame of the send list, behind the
-- notifications to which an upload leads.
pub data Receipt (sn : ℕ) (u v : Uart) : Type 0 where
  ignored : v ≡ u → Receipt sn u v
  replied : Queues 0 u v → Receipt sn u v
  marked : {w : Uart} → Queuing u w → v ≡ acknowledged sn w → Receipt sn u v

module _ (env : Surroundings) (h : IsNotifier env) (cmd : CmdFormat) (u : Uart)
    (room : Rooms u) where
  take_notice-Queuing : (c : Callback) → Safe (Queuing u) (take_notice c env cmd u)
  unfolding take_notice
  take_notice-Queuing http_up_data_cb = h.http cmd u room
  take_notice-Queuing que_sta_cb = nothing
  take_notice-Queuing time_sync_cb = nothing
  take_notice-Queuing drv_poweron_cb = nothing
  take_notice-Queuing print_cb = nothing
  take_notice-Queuing poweron_rsp = nothing
  take_notice-Queuing hid_insert_rsp = nothing
  take_notice-Queuing hid_pullout_rsp = nothing
  take_notice-Queuing hid_data_rsp = nothing
  take_notice-Queuing print_sta_rsp = nothing

  dispatch-Receipt : (c : Option Command) → Safe (λ x. Receipt cmd.sn u x.0) (dispatch env cmd c u)
  unfolding notice
  dispatch-Receipt none = ignored refl
  dispatch-Receipt (some c) = elim (Bool-cases (c.ackword == 0)) [
    | inl e ↦ rw e (
        Safe-bind (Queuing u) (λ x. Receipt cmd.sn u x.0) (take_notice c.callback env cmd u) _
          (take_notice-Queuing c.callback) (λ w q. marked q refl))
    | inr e ↦ rw e (
        Safe-weaken _ (λ x. Receipt cmd.sn u x.0) (answer env cmd c u)
          (answer-Queues env cmd c u room) (λ x q. replied q))
  ]

  pub parse-Receipt : Safe (λ x. Receipt cmd.sn u x.0) (uart_protocol_parse env cmd u)
  unfolding uart_protocol_parse
  parse-Receipt =
      Safe-bind (λ v. Unit {0}) (λ x. Receipt cmd.sn u x.0) (procotol_check cmd) _ (always _)
        (λ v _. elim (Bool-cases v) [
          | inl e ↦ rw e (dispatch-Receipt (find_command cmd.cmd_id uart_cmd_list))
          | inr e ↦ rw e (ignored refl)
        ])
