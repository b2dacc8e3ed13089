-- ===== src/App/Tasks/Safety.antt =====
-- What holds of the whole program in every state that its tasks reach.
use multi_port_convertor.Base.{
  ℕ, ◌+◌, ◌≤◌, ◌≡◌, refl, List, Safe-done, All, count, ltb, if◌then◌else◌,
}
use mathlib.Core.Path.{subst, sym}
use multi_port_convertor.Uart.State.{Uart, zero_poll}
use multi_port_convertor.Uart.Tasks.{System, Reach, notify, here, next, waiting, buffers}
use multi_port_convertor.Uart.Tasks.Line.{IsFrame}
use multi_port_convertor.Uart.Tasks.Safety.{alone, line-IsFrame, buffer_once, free-clean}
use multi_port_convertor.Usb.Reader.Buffers.{IsWhole}
use multi_port_convertor.Usb.Tasks.{
  Readers, open_round, take_round, read_round, data_round, timer_round, elsewhere,
}
use multi_port_convertor.Usb.Tasks.Whole.{in_hand, readers-IsWhole}
use multi_port_convertor.Usb.Told.{
  Told, same, told, connect-Told, on_read-Told, hid_data_round-Told,
}
use multi_port_convertor.Usb.Tasks
use multi_port_convertor.App.Tasks.{
  Program, readers_of, IsOwn, Turn, of_port, of_readers, Run, start, turn,
}

-- What the port has got, and where the buffers of both factories are.
pub record IsSafe (p : Program) : Type 0 where
  pub frames : All IsFrame p.system.line
  pub once :
      (b : ℕ)
      → count b p.system.uart.free
          + count b p.system.uart.sends
          + alone (count b p.system.uart.sends) (waiting b p.system.uart p.system.hand)
        ≡ (if ltb b buffers then 1 else 0)
  pub clean :
      (b : ℕ)
      → 1 ≤ count b p.system.uart.free
      → (waiting b p.system.uart p.system.hand ≡ 0) × ((p.system.uart.formats b).poll ≡ zero_poll)
  pub whole : IsWhole buffers (in_hand p.held) p.hid

module _ (stack : List ℕ) where
  -- A notification more, or none, is a run of the port's tasks.
  Told-Reach : (s : System) (v : Uart) → Reach s → Told s.uart v → Reach (record s { uart = v })
  Told-Reach s v r (same e) = subst (λ w. Reach (record s { uart = w })) (sym e) r
  Told-Reach s v r (told info p e) = next r (notify info p e) tt

  Step-Told : {r t : Readers} (st : Tasks.Step stack r t) → IsOwn stack st → Told r.uart t.uart
  Step-Told {r} (open_round fd info f e) o = Safe-done _ _ (connect-Told r.uart stack fd _ r.hid) e
  Step-Told (take_round e n f) o = same refl
  Step-Told {r} (read_round word {b} e f) o =
      Safe-done _ _ (on_read-Told r.uart stack b word r.hid) f
  Step-Told {r} (data_round e) o = Safe-done _ _ (hid_data_round-Told r.uart stack r.msg r.hid) e
  Step-Told timer_round o = same refl
  Step-Told (elsewhere u) o = absurd o

  port-Reach : {p q : Program} → Turn stack p q → Reach p.system → Reach q.system
  port-Reach (of_port st tm) r = next r st tm
  port-Reach {p} (of_readers st o) r = Told-Reach p.system _ r (Step-Told st o)

  Turn-Reach :
      (words : ℕ → List ℕ) {p q : Program}
      → Turn stack p q
      → Tasks.Reach stack words (readers_of p)
      → Tasks.Reach stack words (readers_of q)
  Turn-Reach words (of_port {t} st tm) r = Tasks.next r (elsewhere t.uart)
  Turn-Reach words (of_readers st o) r = Tasks.next r st

  -- A run of the program is a run of the port's tasks, in time, and a run of the readers' tasks.
  Run-Reach :
      (words : ℕ → List ℕ) {p : Program}
      → Run stack words p
      → Reach p.system × Tasks.Reach stack words (readers_of p)
  Run-Reach words (start memory id hid_id product m c) =
      (here memory id c, Tasks.here hid_id product m _)
  Run-Reach words (turn r t) =
      let (a, b) = Run-Reach words r in (port-Reach t a, Turn-Reach words t b)

  -- In the runs of all tasks of the serial port and of the readers together, in any order and with
  -- surroundings that may change at every step, in which the memory of the 16 buffers of the port
  -- is cleared at the start, their data has its 129 bytes, each call of `uart_protocol_dispose` is
  -- one step and so no two of them overlap, and the port takes each message in one call of `write`,
  -- and in which at every step an upload does no more to the state than to queue frames that pass
  -- the check and wait for no answer, no frame comes with the sequence number of a notification
  -- that is not all sent, and no notification is given up or dropped while a message for it waits:
  -- the port has got only frames that the check accepts; each of the 16 buffers of the port is in
  -- exactly one place, its free buffers are clear and no message waits for them; and each of the 16
  -- buffers of the readers is exactly once in their queue, free, or in the hand of the reader that
  -- waits for a report.
  pub Run-IsSafe : (words : ℕ → List ℕ) {p : Program} → Run stack words p → IsSafe p
  Run-IsSafe words r =
      let (a, b) = Run-Reach words r in
      record {
        frames = line-IsFrame a;
        once = buffer_once a;
        clean = free-clean a;
        whole = readers-IsWhole stack words b;
      }
