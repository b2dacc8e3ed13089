-- ===== src/Usb/Tasks.antt =====
-- The three tasks of usb/usb_communicat.c, interleaved, behind `hid_context_init`. The serial port
-- is shared with the tasks of the other parts, which may change it at any time.
pub mod Whole
use multi_port_convertor.Base.{
  ℕ, ◌≡◌, Bool, true, false, List, [], Option, none, some, Outcome, done, exits, ◌>>=◌, ◌>>◌,
  replicate,
}
use multi_port_convertor.Tool.Mailbox.{Message, mailbox_create}
use multi_port_convertor.Tool.Thread.{Pthread, add_new_thread}
use multi_port_convertor.Uart.State.{Uart}
use multi_port_convertor.Uart.Tasks.{buffers, from_to}
use multi_port_convertor.Usb.Data.{Hid, tick, hid_data_round}
use multi_port_convertor.Usb.Reader.{connect, take_buffer, on_read}

-- The variables when the program starts, and the buffers behind their creation. `words` is what the
-- memory of the buffers holds.
abbrev pub started : (ℕ → List ℕ) → ℕ → Hid
started words id = record {
  free = from_to 0 buffers;
  mailbox = [];
  mbx_id = id;
  words = words;
  timer = 0;
  hid_key_buf = replicate 128 0;
  hid_key_length = 0;
  hid_dev_type = 0;
}

-- `hid_context_init`; `created` is what `create_buf_factory` comes to.
unfoldable pub hid_context_init :
    (created : Outcome (Unit {0})) (queue : Option ℕ) → Pthread → (ℕ → List ℕ) → Outcome Hid
hid_context_init created queue threads words = do
  created
  id ← mailbox_create queue
  read ← add_new_thread threads 21 8192
  time ← add_new_thread threads 20 8192
  text ← add_new_thread threads 22 8192
  done (started words id)

-- `set_hid`: the product that `ioctl` gives, or where it fails what the variable held before.
unfoldable pub set_hid : Option ℕ → ℕ → ℕ
set_hid none usb_product = usb_product
set_hid (some product) usb_product = product

-- `reads` says whether the reader is in its second loop; `held` is the buffer with which it waits for a
-- report there; `product` is its local; `msg` is the local of
-- the task of the data.
pub record Readers : Type 0 where
  pub reads : Bool
  pub held : Option ℕ
  pub product : ℕ
  pub msg : Message
  pub hid : Hid
  pub uart : Uart

pub data Step (stack : List ℕ) (s : Readers) : Readers → Type 0 where
  open_round :
      (fd info : Option ℕ) {found : Bool} {h : Hid} {u : Uart}
      → s.reads ≡ false
      → connect stack fd (set_hid info s.product) s.hid s.uart ≡ done (found, h, u)
      → Step stack s
          (record s { reads = found; product = set_hid info s.product; hid = h; uart = u })
  take_round :
      {b : ℕ} {h : Hid}
      → s.reads ≡ true
      → s.held ≡ none
      → take_buffer s.hid ≡ done (b, h)
      → Step stack s (record s { held = some b; hid = h })
  read_round :
      (word : Option (List ℕ)) {b : ℕ} {goes_on : Bool} {h : Hid} {u : Uart}
      → s.held ≡ some b
      → on_read stack b word s.hid s.uart ≡ done (goes_on, h, u)
      → Step stack s (record s { reads = goes_on; held = none; hid = h; uart = u })
  data_round :
      {m : Message} {h : Hid} {u : Uart}
      → hid_data_round stack s.msg s.hid s.uart ≡ done (m, h, u)
      → Step stack s (record s { msg = m; hid = h; uart = u })
  timer_round : Step stack s (record s { hid = tick s.hid })
  elsewhere : (u : Uart) → Step stack s (record s { uart = u })

pub data Reach (stack : List ℕ) (words : ℕ → List ℕ) : Readers → Type 0 where
  here :
      (id product : ℕ) (m : Message) (u : Uart)
      → Reach stack words (record {
        reads = false;
        held = none;
        product = product;
        msg = m;
        hid = started words id;
        uart = u;
      })
  next : {s t : Readers} → Reach stack words s → Step stack s t → Reach stack words t
