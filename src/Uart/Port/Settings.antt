-- ===== src/Uart/Port/Settings.antt =====
-- What `set_opt` of uart/uart.c makes of its arguments.
use multi_port_convertor.Base.{ℕ, ◌≡◌, refl, ◌⊎◌, true, some, arith, done, if◌then◌else◌}
use multi_port_convertor.Tool.Thread.{Pthread, Accepts, add_new_thread-unchecked}
use multi_port_convertor.Uart.State.{SendFormat}
use multi_port_convertor.Uart.Tasks.{started}
use multi_port_convertor.Uart.Port.{Termios, set_opt, uart_context_init}

pub data Parity : Type 0 where
  no_parity odd even : Parity

-- A line as the two ends have to agree on it.
pub record Line : Type 0 where
  pub speed : ℕ
  pub bits : ℕ
  pub parity : Parity
  pub stop : ℕ

-- The line that the settings describe, by the meaning of the flags.
abbrev pub line_of : Termios → Line
line_of t = record {
  speed = t.ospeed;
  bits = t.csize;
  parity = if t.parenb then if t.parodd then odd else even else no_parity;
  stop = if t.cstopb then 2 else 1;
}

-- The letter for the parity.
abbrev pub event_of : Parity → ℕ
event_of no_parity = b'N'
event_of odd = b'O'
event_of even = b'E'

-- The lines that the program knows.
pub record IsKnown (l : Line) : Type 0 where
  pub speed : (l.speed ≡ 2400) ⊎ ((l.speed ≡ 4800) ⊎ ((l.speed ≡ 9600) ⊎ (l.speed ≡ 115200)))
  pub bits : (l.bits ≡ 7) ⊎ (l.bits ≡ 8)
  pub stop : (l.stop ≡ 1) ⊎ (l.stop ≡ 2)

-- Where the port gives and takes its settings, `set_opt` sets a known line to the speed, the bits,
-- the parity and the stop bits that it is asked for, in both directions, with the receiver on and
-- reads of one byte.
pub set_opt-line :
    (l : Line) (port : Termios)
    → IsKnown l
    → (t : Termios) × (set_opt true true l.speed l.bits (event_of l.parity) l.stop port ≡ (true, t))
      × (line_of t ≡ l)
      × (t.ispeed ≡ t.ospeed)
      × (t.cread ≡ true)
      × (t.vmin ≡ 1)
unfolding set_opt
set_opt-line l port k = (_, refl, ground arith, ground arith, ground arith, ground arith)

-- Where all calls of the system succeed, `uart_context_init` sets the line to 115200 baud with 8
-- bits, no parity and one stop bit, and leaves the start of the tasks.
pub uart_context_init-started :
    (memory : ℕ → SendFormat) (fd id : ℕ) (threads : Pthread) (port : Termios)
    → Accepts threads 19 8192
    → Accepts threads 17 8192
    → Accepts threads 18 8192
    → (t : Termios) × (uart_context_init
          (some fd)
          true
          true
          true
          (done memory)
          (some id)
          threads
          port
        ≡ done (fd, t, started memory id))
      × (line_of t ≡ record { speed = 115200; bits = 8; parity = no_parity; stop = 1 })
unfolding uart_context_init
uart_context_init-started memory fd id threads port a b c = (
  (set_opt true true 115200 8 b'N' 1 port).1,
  rw
      (
        add_new_thread-unchecked threads 19 8192 a,
        add_new_thread-unchecked threads 17 8192 b,
        add_new_thread-unchecked threads 18 8192 c,
      )
      refl,
  refl,
)
