-- ===== src/Usb/Data.antt =====
-- `hid_data_tsk` and `hid_timer_tsk` of usb/usb_communicat.c: the reports of the device are put
-- together to a text, which goes to the serial port.
pub mod Typing
pub mod Text
pub mod Overflow
use multi_port_convertor.Base.{
  ℕ, ◌+◌, ◌/◌, ◌%◌, Bool, true, false, List, [], ◌∷◌, ◌++◌, Option, none, some, Outcome, done,
  ◌>>=◌, ltb, leb, ◌==◌, if◌then◌else◌, u32, get_or, put, read,
}
use multi_port_convertor.Tool.FreeList
use multi_port_convertor.Tool.Mailbox.{Message, Mailbox, mailbox_timedpend}
use multi_port_convertor.Uart.State.{Uart}
use multi_port_convertor.Uart.Notify.{hid_data_ntf}
use multi_port_convertor.Usb.Keys.{find_key}

-- `HID_TIME_OUT`
abbrev pub hid_time_out : ℕ
hid_time_out = 10

-- The variables of usb/usb_communicat.c. `free` are the free buffers of `g_hid_buf`, in their order;
-- `words` is the `key_word` of each buffer, of eight bytes: `head` and the seven of `code`. `mailbox`
-- is the queue `g_hid_mbx_id`, which `mbx_id` names.
pub record Hid : Type 0 where
  pub free : List ℕ
  pub mailbox : Mailbox
  pub mbx_id : ℕ
  pub words : ℕ → List ℕ
  pub timer : ℕ
  pub hid_key_buf : List ℕ
  pub hid_key_length : ℕ
  pub hid_dev_type : ℕ

-- `hid_timer_tsk`, after each millisecond.
abbrev pub tick : Hid → Hid
tick h = record h { timer = u32 (h.timer + 1) }

-- `clock_gettime` plus one millisecond, in seconds and nanoseconds: the deadline of the wait.
abbrev pub deadline : ℕ × ℕ → ℕ × ℕ
deadline (sec, nsec) = (sec + (nsec + 1000000) / 1000000000, (nsec + 1000000) % 1000000000)

-- A report: `pcmp` points to `code` for a card reader, and to `head` for a scanner.
unfoldable pub key_of : List ℕ → Option ℕ
key_of w =
    if get_or w 0 0 == 1
    then find_key (get_or w 1 0) (get_or w 2 0) (get_or w 3 0)
    else find_key (get_or w 0 0) (get_or w 1 0) (get_or w 2 0)

-- `stack` is what the array of `hid_data_ntf` holds before the call.
module _ (stack : List ℕ) where
  -- The text so far goes to the port, and a new one begins.
  unfoldable pub send_text : Hid → Uart → Outcome (Hid × Uart)
  send_text h u = do
    buf ← put h.hid_key_buf h.hid_key_length 0
    text ← read buf h.hid_key_length
    u' ← hid_data_ntf stack text h.hid_dev_type u
    done (record h { hid_key_buf = buf; hid_key_length = 0 }, u')

  -- What the search finds: a character, the return key, or no key.
  unfoldable pub on_key : Option ℕ → Hid → Uart → Outcome (Hid × Uart)
  unfolding send_text
  on_key none h u = done (h, u)
  on_key (some ascii) h u =
      let typed = do
        buf ← put h.hid_key_buf h.hid_key_length ascii
        done (record h { hid_key_buf = buf; hid_key_length = u32 (h.hid_key_length + 1) }, u)
      in if ascii == 13 then send_text h u else typed

  -- One round of `hid_data_tsk` with the message for the buffer `b`.
  unfoldable pub on_report : ℕ → Hid → Uart → Outcome (Hid × Uart)
  on_report b h u = do
    (h', u') ← on_key (key_of (h.words b)) (record h { timer = 0 }) u
    done (record h' { free = FreeList.recycle h'.free b }, u')

  -- One round in which no message came within a millisecond.
  unfoldable pub on_silence : Hid → Uart → Outcome (Hid × Uart)
  on_silence h u =
      let flushed = (do
        (h', u') ← if h.hid_key_length == 0 then done (h, u) else send_text h u
        done (record h' { timer = 0 }, u')) in
      if leb hid_time_out h.timer then flushed else done (h, u)

  -- One round of `hid_data_tsk`; `msg` is its local.
  unfoldable pub hid_data_round : Message → Hid → Uart → Outcome (Message × Hid × Uart)
  unfolding on_report on_silence
  hid_data_round msg h u =
      let (came, m, rest) = mailbox_timedpend msg h.mailbox in
      let handled =
        if came then on_report m.p (record h { mailbox = rest }) u else on_silence h u in
      (do (h', u') ← handled; done (m, h', u'))
