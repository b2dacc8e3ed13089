-- ===== src/Uart/Examples/Lines.antt =====
-- The serial line with concrete settings, a query on it, and the arguments of a command.
use multi_port_convertor.Base.{
  ℕ, ◌<◌, ◌≡◌, refl, true, inl, inr, List, [], ◌∷◌, ◌++◌, arith, some, none, done, replicate,
}
use multi_port_convertor.Tool.Thread.{Pthread, Accepts, add_new_thread, add_new_thread-unchecked}
use multi_port_convertor.Uart.Frame.{frame_of}
use multi_port_convertor.Uart.Receive.Framing.{resting}
use multi_port_convertor.Uart.Parse.Answers.{answered}
use multi_port_convertor.Uart.Parse.Args.{args_param, args_param-offsets}
use multi_port_convertor.Uart.Recv.{uart_recv, query_body, query_buf, uart_recv-que_sta}
use multi_port_convertor.Uart.Tasks.{started}
use multi_port_convertor.Uart.Port.{Termios, zero_termios, uart_context_init}
use multi_port_convertor.Uart.Port.Settings.{
  Line, line_of, no_parity, even, IsKnown, uart_context_init-started,
}
use multi_port_convertor.Uart.Examples.{old, quiet}
use multi_port_convertor.Uart.Examples.Answers.{around}

abbrev empty : List ℕ
empty = replicate 136 0

uart_recv-que_sta_example :
    uart_recv around
      (resting empty)
      (1 ∷ 2 ∷ 0xC0 ∷ 0 ∷ 6 ∷ (query_body 0 7 1 (0 ∷ 3 ∷ []) ++ (0xC0 ∷ [])))
      quiet
    ≡ done (
      resting (query_buf empty 0 7 1 (0 ∷ 3 ∷ [])),
      0xC0 ∷ [],
      answered quiet 0
          (1 ∷ 2 ∷ [])
          (frame_of (query_buf empty 0 7 1 (0 ∷ 3 ∷ [])))
          0x11
          (0 ∷ 2 ∷ 1 ∷ 3 ∷ 2 ∷ 1 ∷ [])
          old,
      none,
    )
uart_recv-que_sta_example =
    uart_recv-que_sta around empty (1 ∷ 2 ∷ []) (0xC0 ∷ []) (0 ∷ 3 ∷ []) 0 7 1 quiet 0 (1 ∷ 2 ∷ [])
      old refl refl (omega arith) (omega arith) refl refl refl

abbrev other_line : Line
other_line = record { speed = 4800; bits = 7; parity = even; stop = 2 }

other_line-IsKnown : IsKnown other_line
other_line-IsKnown = record { speed = inr (inl refl); bits = inl refl; stop = inr refl }

args_param-offsets_runs : args_param (some (2 ∷ 3 ∷ 1 ∷ 0 ∷ [])) ≡ done (0 ∷ 2 ∷ 5 ∷ [])
args_param-offsets_runs = args_param-offsets (2 ∷ 3 ∷ 1 ∷ []) (omega arith)

-- A library whose calls all succeed.
abbrev willing : Pthread
willing = record {
  init = 0;
  setschedpolicy = 0;
  priority_max = 99;
  setschedparam = 0;
  setstacksize = λ n. 0;
  create = none;
  destroy = 0;
  stack_min = 16384;
}

willing-Accepts : (priority : ℕ) → priority < 100 → Accepts willing priority 8192
willing-Accepts priority h = record {
  init = refl;
  policy = refl;
  range = ground arith;
  param = refl;
  stack = λ n. refl;
}

thread_runs : add_new_thread willing 19 8192 ≡ done none
thread_runs = add_new_thread-unchecked willing 19 8192 (willing-Accepts 19 (omega arith))

init_runs :
    (t : Termios) × (uart_context_init
        (some 3)
        true
        true
        true
        (done quiet.formats)
        (some 9)
        willing
        zero_termios
      ≡ done (3, t, started quiet.formats 9))
    × (line_of t ≡ record { speed = 115200; bits = 8; parity = no_parity; stop = 1 })
init_runs =
    uart_context_init-started quiet.formats 3 9 willing zero_termios
      (willing-Accepts 19 (omega arith)) (willing-Accepts 17 (omega arith))
      (willing-Accepts 18 (omega arith))
