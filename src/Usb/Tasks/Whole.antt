-- ===== src/Usb/Tasks/Whole.antt =====
-- No buffer of the readers is lost or used twice, whatever the order of their tasks.
use multi_port_convertor.Base.{
  ℕ, zero, suc, ◌<◌, ◌≡◌, refl, Bool, false, List, [], ◌∷◌, arith, Option, none, some, Safe,
  Safe-bind, Safe-done, Safe-if, always, ◌==◌, has, Distinct, length,
}
use mathlib.Core.Path.{subst}
use multi_port_convertor.Uart.State.{Uart}
use multi_port_convertor.Uart.Notify.{hid_insert_ntf}
use multi_port_convertor.Uart.Tasks.{buffers, from_to}
use multi_port_convertor.Usb.Keys.{find_hid_type}
use multi_port_convertor.Usb.Data.{Hid}
use multi_port_convertor.Usb.Reader.{connect}
use multi_port_convertor.Usb.Reader.Buffers.{
  IsWhole, take_buffer-IsWhole, on_read-IsWhole, hid_data_round-IsWhole,
}
use multi_port_convertor.Usb.Tasks.{
  Readers, Step, Reach, here, next, open_round, take_round, read_round, data_round, timer_round,
  elsewhere,
}

above : (i k n : ℕ) → i < k → has i (from_to k n) ≡ false
above i k zero h = refl
above i k (suc n) h = ground (arith, above i (suc k) n)

from_to-Distinct : (i n : ℕ) → Distinct (from_to i n)
from_to-Distinct i zero = tt
from_to-Distinct i (suc n) = (above i (suc i) n (omega arith), from_to-Distinct (suc i) n)

length-from_to : (i n : ℕ) → length (from_to i n) ≡ n
length-from_to i zero = refl
length-from_to i (suc n) = omega (arith, length-from_to (suc i) n)

-- The buffer that the reader holds.
abbrev pub in_hand : Option ℕ → List ℕ
in_hand none = []
in_hand (some b) = b ∷ []

module _ (stack : List ℕ) where
  connect-IsWhole :
      (n : ℕ) (held : List ℕ) (fd : Option ℕ) (product : ℕ) (h : Hid) (u : Uart)
      → IsWhole n held h
      → Safe (λ x. IsWhole n held x.1) (connect stack fd product h u)
  unfolding connect
  connect-IsWhole n held none product h u w = w
  connect-IsWhole n held (some fd) product h u w =
      let w' : IsWhole n held (record h { hid_dev_type = find_hid_type product }) = record {
        distinct = w.distinct;
        count = w.count;
        prio = w.prio;
      } in
      Safe-if (λ x. IsWhole n held x.1) (fd == 0) _ _ w
        (Safe-if (λ x. IsWhole n held x.1) (find_hid_type product == 0) _ _ w'
          (Safe-bind {A = Uart} {B = Bool × Hid × Uart} (λ u'. Unit {0}) (λ x. IsWhole n held x.1) _
            _ (always (hid_insert_ntf stack (find_hid_type product) u)) (λ u' _. w')))

  Step-IsWhole :
      {s t : Readers}
      → Step stack s t
      → IsWhole buffers (in_hand s.held) s.hid
      → IsWhole buffers (in_hand t.held) t.hid
  Step-IsWhole {s} (open_round fd info r e) w =
      Safe-done _ _ (connect-IsWhole buffers (in_hand s.held) fd _ s.hid s.uart w) e
  Step-IsWhole {s} (take_round r n e) w =
      let w' = subst (λ held. IsWhole buffers (in_hand held) s.hid) n w in
      Safe-done _ _ (take_buffer-IsWhole stack buffers s.hid.free s.hid refl w') e
  Step-IsWhole {s} (read_round word {b} n e) w =
      let w' = subst (λ held. IsWhole buffers (in_hand held) s.hid) n w in
      Safe-done _ _ (on_read-IsWhole stack buffers b word s.hid s.uart w') e
  Step-IsWhole {s} (data_round e) w =
      Safe-done _ _ (hid_data_round-IsWhole stack buffers (in_hand s.held) s.msg s.hid s.uart w) e
  Step-IsWhole timer_round w = record { distinct = w.distinct; count = w.count; prio = w.prio }
  Step-IsWhole (elsewhere u) w = w

  -- In every state that the tasks of the readers reach, in whatever order they run and whatever the
  -- other tasks do to the serial port, between any two of their calls that may wait: each of the 16
  -- buffers is exactly once in the queue, among the free ones, or in the hand of the reader that
  -- waits for a report, and all messages have priority 0. A call of `uart_protocol_dispose` is one
  -- step there.
  pub readers-IsWhole :
      (words : ℕ → List ℕ) {s : Readers}
      → Reach stack words s
      → IsWhole buffers (in_hand s.held) s.hid
  readers-IsWhole words (here id product m u) = record {
    distinct = from_to-Distinct 0 buffers;
    count = length-from_to 0 buffers;
    prio = tt;
  }
  readers-IsWhole words (next r st) = Step-IsWhole st (readers-IsWhole words r)
