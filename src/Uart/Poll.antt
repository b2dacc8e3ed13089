-- ===== src/Uart/Poll.antt =====
-- `uart_poll_tsk` of uart/uart_communicat.c: every 5 ms a pass goes over the frames that wait in
-- `g_uart_send_list`, under the mutex of the list. Where the message queue is full, `mailbox_post`
-- waits for room, and the pass with it.
pub mod Pass
pub mod Delivery
pub mod Schedule
use multi_port_convertor.Base.{
  ℕ, ◌+◌, Bool, true, false, List, [], ◌∷◌, ltb, leb, ◌==◌, if◌then◌else◌, u32, word,
}
use multi_port_convertor.Tool.FreeList
use multi_port_convertor.Tool.Mailbox.{Message, enqueue}
use multi_port_convertor.Uart.State.{Poll, zero_poll, SendFormat, Uart, update}

-- What a pass does with an entry beside writing its `poll`: it posts the frame and unlinks the entry;
-- posts the frame; does nothing; or unlinks the entry and recycles its buffer.
pub data Action : Type 0 where
  reply transmit wait release : Action

-- Does the entry stay in the list?
abbrev pub keeps : Action → Bool
keeps reply = false
keeps transmit = true
keeps wait = true
keeps release = false

abbrev give_up_or_resend : Poll → Action × Poll
give_up_or_resend p =
    let times = u32 (p.times + 1) in
    if ltb 3 times then (release, zero_poll) else (transmit, record p { delay = 0; times = times })

abbrev not_first : Poll → Action × Poll
not_first p =
    let delay = u32 (p.delay + 5) in
    if p.free_flag == 0
    then if leb 500 delay then give_up_or_resend p else (wait, record p { delay = delay })
    else (release, zero_poll)

-- The tests of the loop's body.
unfoldable pub poll_action : Poll → Action × Poll
poll_action p =
    if p.type == 0
    then (reply, record p { free_flag = 1 })
    else if p.type == 1
    then if p.times == 0 then (transmit, record p { times = u32 (p.times + 1) }) else not_first p
    else (wait, p)

abbrev pub set_poll : ℕ → Poll → Uart → Uart
set_poll b p u = record u { formats = update u.formats b (record (u.formats b) { poll = p }) }

-- `getresplen`
abbrev pub resp_len : ℕ → Uart → ℕ
resp_len b u = word (u.formats b).cmd.length_msb (u.formats b).cmd.length_lsb + 4

abbrev pub message_of : ℕ → Uart → Message
message_of b u = record { id = u.mbx_id; prio = 0; p = b; data_len = resp_len b u }

abbrev pub post : ℕ → Uart → Uart
post b u = record u { mailbox = enqueue (message_of b u) u.mailbox }

-- `list_del` takes out the entries for which the first part is false.
abbrev pub perform : ℕ → Action → Poll → Uart → Bool × Uart
perform b reply p u = (false, post b (set_poll b p u))
perform b transmit p u = (true, post b (set_poll b p u))
perform b wait p u = (true, set_poll b p u)
perform b release p u = (
  false,
  record u {
    formats = update u.formats b (record (u.formats b) { poll = p });
    free = FreeList.recycle u.free b;
  },
)

unfoldable pub poll_entry : ℕ → Uart → Bool × Uart
poll_entry b u = let (a, p) = poll_action (u.formats b).poll in perform b a p u

-- The walk from an entry on: the entries that it leaves in the list, and the state.
unfoldable pub poll_walk : List ℕ → Uart → List ℕ × Uart
poll_walk [] u = ([], u)
poll_walk (b ∷ bs) u =
    let (keep, u') = poll_entry b u in
    let (kept, u'') = poll_walk bs u' in (if keep then b ∷ kept else kept, u'')

-- One round of the task.
unfoldable pub uart_poll_pass : Uart → Uart
uart_poll_pass u = let (kept, u') = poll_walk u.sends u in record u' { sends = kept }
