-- ===== src/Usb/Reader.antt =====
-- `hid_reopen_read_tsk` of usb/usb_communicat.c: it waits for a device, and reads its reports until
-- a read fails.
pub mod Buffers
use multi_port_convertor.Base.{
  ℕ, Bool, true, false, List, Option, none, some, Outcome, done, ◌>>=◌, ◌==◌, if◌then◌else◌,
}
use multi_port_convertor.Tool.FreeList
use multi_port_convertor.Tool.Mailbox.{Message, enqueue}
use multi_port_convertor.Uart.State.{Uart}
use multi_port_convertor.Uart.Notify.{hid_insert_ntf, hid_pullout_ntf}
use multi_port_convertor.Usb.Keys.{find_hid_type}
use multi_port_convertor.Usb.Data.{Hid}

-- `sizeof(hid_format_t)` with a pointer of four bytes; nothing reads it.
abbrev pub format_size : ℕ
format_size = 12

abbrev pub report_message : ℕ → Hid → Message
report_message b h = record { id = h.mbx_id; prio = 0; p = b; data_len = format_size }

-- The report `w` is in the buffer `b`, and the buffer in the queue.
abbrev pub posted : ℕ → List ℕ → Hid → Hid
posted b w h = record h {
  words = λ c. if c == b then w else h.words c;
  mailbox = enqueue (report_message b h) h.mailbox;
}

-- The second inner loop up to its read, which waits: a buffer is taken for the report.
unfoldable pub take_buffer : Hid → Outcome (ℕ × Hid)
take_buffer h = do (b, free) ← FreeList.produce h.free; done (b, record h { free = free })

module _ (stack : List ℕ) where
  -- One round of the first inner loop: `fd` is what `open_hid` returns, and `product` what the
  -- variable of that name holds behind `set_hid`. The first result says whether the loop ends.
  unfoldable pub connect : (fd : Option ℕ) (product : ℕ) → Hid → Uart → Outcome (Bool × Hid × Uart)
  connect none product h u = done (false, h, u)
  connect (some fd) product h u =
      let dev_type = find_hid_type product in
      let h' = record h { hid_dev_type = dev_type } in
      let known = (do u' ← hid_insert_ntf stack dev_type u; done (true, h', u')) in
      if fd == 0 then done (false, h, u) else if dev_type == 0 then done (false, h', u) else known

  -- The rest of a round, behind the read into the buffer `b`. `none` is a read that fails or meets the
  -- end, which ends the loop; else the list is what `key_word` holds behind the read. The first result
  -- says whether the loop goes on.
  unfoldable pub on_read : ℕ → Option (List ℕ) → Hid → Uart → Outcome (Bool × Hid × Uart)
  on_read b none h u = do
    let h' = record h { free = FreeList.recycle h.free b }
    u' ← hid_pullout_ntf stack h.hid_dev_type u
    done (false, h', u')
  on_read b (some bytes) h u = done (true, posted b bytes h, u)
