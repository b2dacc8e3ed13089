-- ===== src/App/Start.antt =====
-- The calls of `main` in app/main.c before its loop.
pub mod Running
use multi_port_convertor.Base.{
  ℕ, Bool, true, List, Option, none, some, Outcome, done, ◌>>=◌, ◌≡◌, refl, ◌<◌, false, has, length,
  ltb, if◌then◌else◌, arith,
}
use multi_port_convertor.Tool.KeyFile.{Glib, freed}
use multi_port_convertor.Tool.Thread.{Pthread, Accepts, add_new_thread, add_new_thread-unchecked}
use multi_port_convertor.Tool.Mailbox.{Message}
use multi_port_convertor.Uart.State.{SendFormat, Uart}
use multi_port_convertor.Uart.Parse.{Surroundings}
use multi_port_convertor.Uart.Reply.{c_string}
use multi_port_convertor.Uart.Tasks.{start_of, started}
use multi_port_convertor.Uart.Port.{Termios, uart_context_init}
use multi_port_convertor.Uart.Port.Settings.{line_of, no_parity, uart_context_init-started}
use multi_port_convertor.Usb.Data.{Hid}
use multi_port_convertor.Usb.Tasks.{hid_context_init}
use multi_port_convertor.Usb.Disk.{Disk}
use multi_port_convertor.Net.Http.{Cjson, Exchange}
use multi_port_convertor.Net.Clock.{TmFields}
use multi_port_convertor.App.System.{Hardware, Shared, first_states, sys_context_init}
use multi_port_convertor.App.System.Starting.{domain_text, sys_context_init-started}
use multi_port_convertor.Usb.Tasks
use multi_port_convertor.App.Tasks.{Program, Run, start}

-- What the calls of the system in the start come to: those of app/system.c and the request to the
-- server, the opening of the port and its settings, the buffers and the queues of uart/ and usb/, and
-- the threads.
pub record Machine : Type 0 where
  pub hardware : Hardware
  pub handle : Bool
  pub exchange : Exchange
  pub fd : Option ℕ
  pub fcntl : Bool
  pub got : Bool
  pub set : Bool
  pub uart_buffers : Outcome (ℕ → SendFormat)
  pub uart_queue : Option ℕ
  pub hid_buffers : Outcome (Unit {0})
  pub hid_queue : Option ℕ
  pub threads : Pthread

-- What the start leaves: the shared variables, the port's descriptor and settings, and the variables of
-- the tasks.
pub record Begun (F : Type 0) : Type 0 where
  pub shared : Shared F
  pub uart_fd : ℕ
  pub port : Termios
  pub uart : Uart
  pub hid : Hid
  pub g_udisk : ℕ → Disk

unfoldable pub net_context_init : Pthread → Outcome (Option ℕ)
net_context_init threads = add_new_thread threads 15 8192

-- `udisk_context_init`: the entries of `g_udisk` behind it.
unfoldable pub udisk_context_init : Pthread → (ℕ → Disk) → Outcome (ℕ → Disk)
udisk_context_init threads g_udisk = do
  disk ← add_new_thread threads 8 163840
  done (λ i. if ltb i 3 then record (g_udisk i) { state = 1 } else g_udisk i)

module _ {Item F : Type 0} (json : Cjson Item) (glib : Glib F) (mktime : TmFields → ℕ)
    (stack : ℕ → ℕ) where
  -- The five calls; `words` is what the memory of the readers' buffers holds.
  unfoldable pub context_init :
      Machine → (words : ℕ → List ℕ) → Termios → (ℕ → Disk) → Shared F → Outcome (Begun F)
  unfolding net_context_init udisk_context_init
  context_init k words port g_udisk w = do
    w' ← sys_context_init json glib mktime stack k.hardware k.handle k.exchange w
    (fd, port', u) ←
        uart_context_init k.fd k.fcntl k.got k.set k.uart_buffers k.uart_queue k.threads port
    h ← hid_context_init k.hid_buffers k.hid_queue k.threads words
    net ← net_context_init k.threads
    disks ← udisk_context_init k.threads g_udisk
    done (record { shared = w'; uart_fd = fd; port = port'; uart = u; hid = h; g_udisk = disks })
