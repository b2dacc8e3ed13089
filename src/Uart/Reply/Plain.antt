-- ===== src/Uart/Reply/Plain.antt =====
-- What `sprintf` of uart/uart_protocol.c, usb/udisk.c and net/http_protocol.c makes of a plain text.
use multi_port_convertor.Base.{ℕ, ◌≡◌, refl, false, List, [], ◌∷◌, arith, done, has}
use multi_port_convertor.Uart.Reply.{format_alone}

-- A text without a percent sign is printed as it is.
pub format_alone-plain : (t : List ℕ) → has b'%' t ≡ false → format_alone t ≡ done t
unfolding format_alone
format_alone-plain [] h = refl
format_alone-plain (c ∷ []) h = ground arith
format_alone-plain (c ∷ d ∷ cs) h = ground (arith, format_alone-plain (d ∷ cs))
