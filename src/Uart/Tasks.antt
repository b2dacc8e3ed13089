-- ===== src/Uart/Tasks.antt =====
-- The tasks of uart/ and those that notify the device, interleaved: uart/uart_communicat.c with
-- the send list, the message queue and the buffers that they share. A step is what a task does
-- under the lock of the list, or between two calls that may wait.
pub mod Counts
pub mod Places
pub mod Effects
pub mod Answers
pub mod Receipts
pub mod Owned
pub mod Fits
pub mod Contents
pub mod Line
pub mod Safety
use multi_port_convertor.Base.{
  ℕ, zero, suc, ◌+◌, ◌≤◌, ◌<◌, ◌≡◌, Bool, true, false, List, [], ◌∷◌, Option, none, some, Outcome,
  done, ◌==◌, if◌then◌else◌, has, length,
}
use multi_port_convertor.Tool.Mailbox.{Message, Mailbox, mailbox_pend}
use multi_port_convertor.Uart.Frame.{CmdFormat}
use multi_port_convertor.Uart.State.{zero_poll, SendFormat, Uart}
use multi_port_convertor.Uart.Notify.{SendInfo, uart_protocol_dispose}
use multi_port_convertor.Uart.Parse.{Surroundings, uart_protocol_parse}
use multi_port_convertor.Uart.Poll.{release, uart_poll_pass}
use multi_port_convertor.Uart.Poll.Pass.{action_on}
use multi_port_convertor.Uart.Send.{uart_send}
use multi_port_convertor.Uart.Tasks.Receipts.{IsNotifier}

-- `hand` is the message that `uart_send_tsk` has taken and not yet dealt with; `line` is what the
-- serial port got so far, message by message.
pub record System : Type 0 where
  pub uart : Uart
  pub hand : Option Message
  pub line : List (List ℕ)

-- What the tasks do. `notify` is any call of `uart_protocol_dispose`, taken whole, so that calls
-- of it by several tasks do not overlap; `receive` is `uart_recv_tsk`
-- with a received frame, where `env` is what the clock, the ports, the printer and the server are at
-- that moment; `poll_round` and `pend` and `send` are rounds of `uart_poll_tsk` and
-- `uart_send_tsk`. The port takes the whole message in one call of `write`.
pub data Step (s : System) : System → Type 0 where
  notify :
      (info : SendInfo) {v : Uart}
      → info.poll_type ≤ 1
      → uart_protocol_dispose info s.uart ≡ done v
      → Step s (record s { uart = v })
  receive :
      (env : Surroundings) (cmd : CmdFormat) {v : Uart} {shell : Option (List ℕ)}
      → uart_protocol_parse env cmd s.uart ≡ done (v, shell)
      → Step s (record s { uart = v })
  poll_round : Step s (record s { uart = uart_poll_pass s.uart })
  pend :
      {m : Message} {q : Mailbox}
      → s.hand ≡ none
      → mailbox_pend s.uart.mailbox ≡ some (m, q)
      → Step s (record s { uart = record (s.uart) { mailbox = q }; hand = some m })
  send :
      (m : Message) {sent : List ℕ} {v : Uart}
      → s.hand ≡ some m
      → uart_send m (m.data_len ∷ []) s.uart ≡ done (sent, v)
      → Step s (record { uart = v; hand = none; line = sent ∷ s.line })

-- How many of the messages are about the buffer.
abbrev pub pending : ℕ → Mailbox → ℕ
pending b [] = 0
pending b (m ∷ q) = (if m.p == b then 1 else 0) + pending b q

abbrev pub held : ℕ → Option Message → ℕ
held b none = 0
held b (some m) = if m.p == b then 1 else 0

-- Messages for the buffer that are not dealt with: in the queue, and in the hand of the task.
abbrev pub waiting : ℕ → Uart → Option Message → ℕ
waiting b u hand = pending b u.mailbox + held b hand

-- No notification with the sequence number is still unsent, wholly or in part.
abbrev pub AllSent : ℕ → Uart → Option Message → Type 0
AllSent sn u hand =
    (b : ℕ)
    → has b u.sends ≡ true
    → (sn == (u.formats b).cmd.sn) ≡ true
    → (u.formats b).poll.type ≡ 1
    → (1 ≤ (u.formats b).poll.times) × (waiting b u hand ≡ 0)

-- No notification is given up, or dropped as answered, while a message for it is not dealt with.
abbrev pub NoneLate : Uart → Option Message → Type 0
NoneLate u hand = (b : ℕ) → has b u.sends ≡ true → action_on u b ≡ release → waiting b u hand ≡ 0

-- What the program trusts the device, the line and an upload with. An upload does no more to the state
-- than to queue frames that wait for no answer; Net/Upload/Notifies shows this of the code.
abbrev pub Timely : {s t : System} → Step s t → Type 0
Timely (notify info p e) = Unit
Timely {s} (receive env cmd e) = IsNotifier env × AllSent cmd.sn s.uart s.hand
Timely {s} poll_round = NoneLate s.uart s.hand
Timely (pend n e) = Unit
Timely (send m h e) = Unit

-- `create_buf_factory(16, sizeof(uart_send_format_t), &g_uart_send_buf)`
abbrev pub buffers : ℕ
buffers = 16

-- `i`, `i + 1` and so on, `n` numbers.
abbrev pub from_to : ℕ → ℕ → List ℕ
from_to i zero = []
from_to i (suc n) = i ∷ from_to (suc i) n

-- What `uart_context_init` leaves, where `mailbox_create` returns `id` and the memory that `malloc`
-- gave for the buffers holds `memory`.
abbrev pub started : (ℕ → SendFormat) → ℕ → Uart
started memory id = record {
  free = from_to 0 buffers;
  sends = [];
  formats = memory;
  mailbox = [];
  uart_send_sn = 0;
  mbx_id = id;
}

-- The memory of each buffer has its declared size, and `poll` is zero in it. The program relies on this
-- and does not provide for it: the memory comes from `malloc`, and only `type` is written before use.
abbrev pub IsCleared : (ℕ → SendFormat) → Type 0
IsCleared memory = (b : ℕ) → ((memory b).poll ≡ zero_poll) × (length (memory b).cmd.payload ≡ 129)

abbrev pub start_of : Uart → System
start_of u = record { uart = u; hand = none; line = [] }

pub data Reach : System → Type 0 where
  here :
      (memory : ℕ → SendFormat) (id : ℕ) → IsCleared memory → Reach (start_of (started memory id))
  next : {s t : System} → Reach s → (st : Step s t) → Timely st → Reach t
