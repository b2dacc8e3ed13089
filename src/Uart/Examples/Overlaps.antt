-- ===== src/Uart/Examples/Overlaps.antt =====
-- Two notifications, one after the other and one inside the other.
use multi_port_convertor.Base.{◌≡◌, ◌>>=◌, refl, [], ◌∷◌, arith, done, replicate, read-done}
use multi_port_convertor.Uart.State.{Uart}
use multi_port_convertor.Uart.Notify.{SendInfo, uart_protocol_dispose}
use multi_port_convertor.Uart.Notify.Overlap.{
  IsCall, IsAlike, IsMixed, begin_dispose, finish_dispose, interrupted,
  begin_dispose-finish_dispose, interrupted-IsMixed,
}
use multi_port_convertor.Uart.Examples.{insert_info, quiet}

-- The text of a scanner.
abbrev text_info : SendInfo
text_info = record {
  cmd_id = 0x22;
  len = 3;
  pdt_type = 0xA1;
  content = 2 ∷ b'4' ∷ b'2' ∷ replicate 125 0;
  poll_type = 1;
}

insert-IsCall : IsCall insert_info (3 ∷ [])
insert-IsCall = record {
  size = refl;
  small = omega arith;
  has_content = read-done insert_info.content 1 (omega arith);
}

text-IsCall : IsCall text_info (2 ∷ b'4' ∷ b'2' ∷ [])
text-IsCall = record {
  size = refl;
  small = omega arith;
  has_content = read-done text_info.content 3 (omega arith);
}

begin_dispose-finish_dispose_example :
    (v : Uart) × (w : Uart) × (uart_protocol_dispose insert_info quiet ≡ done v)
    × ((begin_dispose insert_info quiet >>= λ r. finish_dispose r.0 r.0 insert_info r.1) ≡ done w)
    × IsAlike v w
begin_dispose-finish_dispose_example =
    begin_dispose-finish_dispose insert_info (3 ∷ []) quiet 0 (1 ∷ 2 ∷ []) insert-IsCall refl refl

interrupted-IsMixed_example :
    (v : Uart) × (interrupted text_info insert_info quiet ≡ done v)
    × IsMixed text_info insert_info (2 ∷ b'4' ∷ b'2' ∷ []) 0 1 quiet v
interrupted-IsMixed_example =
    interrupted-IsMixed text_info insert_info (2 ∷ b'4' ∷ b'2' ∷ []) (3 ∷ []) quiet 0 1 (2 ∷ [])
      text-IsCall insert-IsCall refl (λ e. absurd (omega arith)) refl
