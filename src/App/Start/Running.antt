-- ===== src/App/Start/Running.antt =====
-- Where all calls of the system succeed, the start of app/main.c ends in the state from which its
-- tasks run.
use multi_port_convertor.Base.{
  ℕ, true, List, none, some, done, ◌≡◌, refl, ◌<◌, false, has, length, ltb, if◌then◌else◌, arith,
}
use multi_port_convertor.Tool.KeyFile.{Glib}
use multi_port_convertor.Tool.Thread.{Pthread, Accepts, add_new_thread-unchecked}
use multi_port_convertor.Tool.Mailbox.{Message}
use multi_port_convertor.Uart.State.{SendFormat}
use multi_port_convertor.Uart.Reply.{c_string}
use multi_port_convertor.Uart.Tasks.{start_of, started, IsCleared}
use multi_port_convertor.Uart.Port.{Termios}
use multi_port_convertor.Uart.Port.Settings.{line_of, no_parity, uart_context_init-started}
use multi_port_convertor.Usb.Tasks.{hid_context_init}
use multi_port_convertor.Usb.Disk.{Disk}
use multi_port_convertor.Net.Http.{Cjson}
use multi_port_convertor.Net.Clock.{TmFields}
use multi_port_convertor.App.System.{Shared, first_states}
use multi_port_convertor.App.System.Starting.{domain_text, sys_context_init-started}
use multi_port_convertor.Usb.Tasks
use multi_port_convertor.App.Tasks.{Run, start}
use multi_port_convertor.App.Start.{
  Machine, Begun, net_context_init, udisk_context_init, context_init,
}

-- Every call of the system succeeds.
pub record Works (k : Machine) : Type 0 where
  pub fd : ℕ
  pub uart_id : ℕ
  pub hid_id : ℕ
  pub opened : k.fd ≡ some fd
  pub flags : k.fcntl ≡ true
  pub got : k.got ≡ true
  pub set : k.set ≡ true
  pub memory : ℕ → SendFormat
  pub uart_buffers : k.uart_buffers ≡ done memory
  pub uart_queue : k.uart_queue ≡ some uart_id
  pub hid_buffers : k.hid_buffers ≡ done tt
  pub hid_queue : k.hid_queue ≡ some hid_id
  pub sending : Accepts k.threads 19 8192
  pub receiving : Accepts k.threads 17 8192
  pub polling : Accepts k.threads 18 8192
  pub reading : Accepts k.threads 21 8192
  pub timing : Accepts k.threads 20 8192
  pub typing : Accepts k.threads 22 8192
  pub detecting : Accepts k.threads 15 8192
  pub mounting : Accepts k.threads 8 163840

hid_context_init-started :
    (id : ℕ) (threads : Pthread) (words : ℕ → List ℕ)
    → Accepts threads 21 8192
    → Accepts threads 20 8192
    → Accepts threads 22 8192
    → hid_context_init (done tt) (some id) threads words ≡ done (Tasks.started words id)
unfolding hid_context_init
hid_context_init-started id threads words a b c =
    rw
      (
        add_new_thread-unchecked threads 21 8192 a,
        add_new_thread-unchecked threads 20 8192 b,
        add_new_thread-unchecked threads 22 8192 c,
      )
      refl

module _ {Item F : Type 0} (json : Cjson Item) (glib : Glib F) (mktime : TmFields → ℕ)
    (scanned : ℕ → ℕ) (stack : List ℕ) where
  -- Where all calls of the system succeed, the memory that `malloc` gave for the 16 buffers of the
  -- port is cleared, and the name of the server has no NUL and no percent sign and less than 128
  -- bytes, as its array has: the five calls of `main` before its loop end, whatever the hardware's
  -- address and the server's answer are. They leave the state from which the runs of the port's and
  -- the readers' tasks start, a line of 115200 baud with 8 bits, no parity and one stop bit, the
  -- name of the server as a text, the ports numbered with the server as lost, and no disk mounted.
  pub context_init-Run :
      (k : Machine) (words : ℕ → List ℕ) (port : Termios) (g_udisk : ℕ → Disk) (w : Shared F)
      (product : ℕ) (m : Message)
      → (works : Works k) → IsCleared works.memory
      → has 0 (domain_text glib w.settings) ≡ false
      → has b'%' (domain_text glib w.settings) ≡ false
      → length (domain_text glib w.settings) < 128
      → length w.online.g_domain ≡ 128
      → (b : Begun F) × (context_init json glib mktime scanned k words port g_udisk w ≡ done b)
        × Run stack words (record {
          system = start_of b.uart;
          reads = false;
          held = none;
          product = product;
          msg = m;
          hid = b.hid;
        })
        × (line_of b.port ≡ record { speed = 115200; bits = 8; parity = no_parity; stop = 1 })
        × (c_string b.shared.online.g_domain ≡ done (domain_text glib w.settings))
        × (b.shared.online.net ≡ first_states)
        × ((i : ℕ) → i < 3 → (b.g_udisk i).state ≡ 1)
  unfolding context_init net_context_init udisk_context_init
  context_init-Run k words port g_udisk w product m v cleared z f h n =
      let (s, e, text, closed, on, net) =
        sys_context_init-started glib json mktime scanned k.hardware k.handle k.exchange w z f h
          n in
      let (t, set, line) =
        uart_context_init-started v.memory v.fd v.uart_id k.threads port v.sending v.receiving
          v.polling in
      (
        record {
          shared = s;
          uart_fd = v.fd;
          port = t;
          uart = started v.memory v.uart_id;
          hid = Tasks.started words v.hid_id;
          g_udisk = λ i. if ltb i 3 then record (g_udisk i) { state = 1 } else g_udisk i;
        },
        rw
            (
              e,
              v.opened,
              v.flags,
              v.got,
              v.set,
              v.uart_buffers,
              v.uart_queue,
              set,
              v.hid_buffers,
              v.hid_queue,
              hid_context_init-started v.hid_id k.threads words v.reading v.timing v.typing,
              add_new_thread-unchecked k.threads 15 8192 v.detecting,
              add_new_thread-unchecked k.threads 8 163840 v.mounting,
            )
            refl,
        start v.memory v.uart_id v.hid_id product m cleared,
        line,
        text,
        net,
        λ i l. ground arith,
      )
