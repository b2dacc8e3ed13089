-- ===== src/Uart/Port.antt =====
-- uart/uart.h and uart/uart.c: the settings of the serial line; and `uart_context_init` of
-- uart/uart_communicat.c.
pub mod Settings
use multi_port_convertor.Base.{
  ℕ, ◌+◌, Bool, true, false, not, Option, none, some, Outcome, done, exits, ◌>>=◌, ◌>>◌, ◌==◌,
  if◌then◌else◌,
}
use multi_port_convertor.Tool.Mailbox.{mailbox_create}
use multi_port_convertor.Tool.Thread.{Pthread, add_new_thread}
use multi_port_convertor.Uart.State.{SendFormat, Uart}
use multi_port_convertor.Uart.Tasks.{started}

-- `struct termios`, as far as `set_opt` writes it: the flags by their names, the size of a character
-- in bits, the speeds in baud, and the two entries of `c_cc`.
pub record Termios : Type 0 where
  pub clocal : Bool
  pub cread : Bool
  pub csize : ℕ
  pub parenb : Bool
  pub parodd : Bool
  pub cstopb : Bool
  pub inpck : Bool
  pub istrip : Bool
  pub ispeed : ℕ
  pub ospeed : ℕ
  pub vtime : ℕ
  pub vmin : ℕ

-- Behind `bzero`; CS5 is the value 0.
abbrev pub zero_termios : Termios
zero_termios = record {
  clocal = false;
  cread = false;
  csize = 5;
  parenb = false;
  parodd = false;
  cstopb = false;
  inpck = false;
  istrip = false;
  ispeed = 0;
  ospeed = 0;
  vtime = 0;
  vmin = 0;
}

-- `switch (nBits)`
abbrev pub set_bits : ℕ → Termios → Termios
set_bits bits t =
    if bits == 7 then record t { csize = 7 } else if bits == 8 then record t { csize = 8 } else t

-- `switch (nEvent)`
abbrev pub set_event : ℕ → Termios → Termios
set_event event t =
    if event == b'O'
    then record t { parenb = true; parodd = true; inpck = true; istrip = true }
    else if event == b'E'
    then record t { parenb = true; parodd = false; inpck = true; istrip = true }
    else if event == b'N'
    then record t { parenb = false }
    else t

-- `cfsetispeed` and `cfsetospeed`
abbrev pub set_speeds : ℕ → Termios → Termios
set_speeds speed t = record t { ispeed = speed; ospeed = speed }

-- `switch (nSpeed)`
abbrev pub set_speed : ℕ → Termios → Termios
set_speed speed t =
    if speed == 2400
    then set_speeds 2400 t
    else if speed == 4800
    then set_speeds 4800 t
    else if speed == 9600
    then set_speeds 9600 t
    else if speed == 115200
    then set_speeds 115200 t
    else set_speeds 9600 t

-- The tests on `nStop`.
abbrev pub set_stop : ℕ → Termios → Termios
set_stop stop t =
    if stop == 1
    then record t { cstopb = false }
    else if stop == 2
    then record t { cstopb = true }
    else t

-- `set_opt`: whether it returns 0, and the settings of the port. `got` and `set` say whether
-- `tcgetattr` and `tcsetattr` succeed.
unfoldable pub set_opt : (got set : Bool) → (speed bits event stop : ℕ) → Termios → Bool × Termios
set_opt got set speed bits event stop port =
    let bits_set = set_bits bits (record zero_termios { clocal = true; cread = true }) in
    let newtio = set_stop stop (set_speed speed (set_event event bits_set)) in
    let written = record newtio { vtime = 0; vmin = 1 } in
    if got then if set then (true, written) else (false, port) else (false, port)

-- `open_port`: the descriptor that `open` gives, and whether `fcntl` succeeds.
unfoldable pub open_port : (fd : Option ℕ) → (fcntl : Bool) → Option ℕ
open_port none fcntl = none
open_port (some fd) fcntl = if fcntl then some fd else none

abbrev opened : Option ℕ → Outcome ℕ
opened none = exits
opened (some fd) = done fd

-- `uart_context_init`: the descriptor `uart_fd`, the settings of the port, and the variables of the
-- tasks. `created` is what `create_buf_factory` comes to, with what the memory of the
-- buffers then holds, and the three threads are started alike.
unfoldable pub uart_context_init :
    (fd : Option ℕ) (fcntl got set : Bool) (created : Outcome (ℕ → SendFormat)) (queue : Option ℕ)
    → Pthread
    → Termios
    → Outcome (ℕ × Termios × Uart)
unfolding open_port set_opt
uart_context_init fd fcntl got set created queue threads port = do
  uart_fd ← opened (open_port fd fcntl)
  let (ok, port') = set_opt got set 115200 8 b'N' 1 port
  (if ok then done tt else exits)
  memory ← created
  id ← mailbox_create queue
  send ← add_new_thread threads 19 8192
  recv ← add_new_thread threads 17 8192
  poll ← add_new_thread threads 18 8192
  done (uart_fd, port', started memory id)
