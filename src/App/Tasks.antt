-- ===== src/App/Tasks.antt =====
-- All tasks of the program that share the serial port, interleaved: those of
-- uart/uart_communicat.c, those of usb/usb_communicat.c, and whoever else notifies the device.
pub mod Safety
use multi_port_convertor.Base.{
  ℕ, ◌+◌, ◌≤◌, ◌≡◌, refl, Bool, true, false, List, [], ◌∷◌, Option, none, Safe, Safe-done, All,
  count, ltb, if◌then◌else◌,
}
use mathlib.Core.Path.{subst, sym}
use multi_port_convertor.Tool.Mailbox.{Message}
use multi_port_convertor.Uart.State.{SendFormat, Uart, zero_poll}
use multi_port_convertor.Uart.Parse.{Surroundings}
use multi_port_convertor.Uart.Tasks.{
  System, Step, Timely, Reach, notify, here, next, IsCleared, started, start_of, waiting, buffers,
}
use multi_port_convertor.Uart.Tasks.Receipts.{IsNotifier}
use multi_port_convertor.Uart.Tasks.Line.{IsFrame}
use multi_port_convertor.Uart.Tasks.Safety.{alone, line-IsFrame, buffer_once, free-clean}
use multi_port_convertor.Usb.Data.{Hid}
use multi_port_convertor.Usb.Reader.Buffers.{IsWhole}
use multi_port_convertor.Usb.Tasks.{
  Readers, open_round, take_round, read_round, data_round, timer_round, elsewhere,
}
use multi_port_convertor.Usb.Tasks.Whole.{readers-IsWhole}
use multi_port_convertor.Usb.Told.{
  Told, same, told, connect-Told, on_read-Told, hid_data_round-Told,
}
use multi_port_convertor.Usb.Tasks

-- The state of the tasks of uart/, and what the tasks of the readers have beside the port.
pub record Program : Type 0 where
  pub system : System
  pub reads : Bool
  pub held : Option ℕ
  pub product : ℕ
  pub msg : Message
  pub hid : Hid

abbrev pub readers_of : Program → Readers
readers_of p = record {
  reads = p.reads;
  held = p.held;
  product = p.product;
  msg = p.msg;
  hid = p.hid;
  uart = p.system.uart;
}

-- The program where the readers stand so.
abbrev pub with_readers : Program → Readers → Program
with_readers p r = record {
  system = record (p.system) { uart = r.uart };
  reads = r.reads;
  held = r.held;
  product = r.product;
  msg = r.msg;
  hid = r.hid;
}

module _ (stack : List ℕ) where
  -- A step of the readers' own.
  abbrev pub IsOwn : {r t : Readers} → Tasks.Step stack r t → Type 0
  IsOwn (open_round fd info e f) = Unit
  IsOwn (take_round e n f) = Unit
  IsOwn (read_round word e f) = Unit
  IsOwn (data_round e) = Unit
  IsOwn timer_round = Unit
  IsOwn (elsewhere u) = ⊥

  pub data Turn (p : Program) : Program → Type 0 where
    of_port : {t : System} → (st : Step p.system t) → Timely st → Turn p (record p { system = t })
    of_readers :
        {r : Readers}
        → (st : Tasks.Step stack (readers_of p) r) → IsOwn st
        → Turn p (with_readers p r)

  pub data Run (words : ℕ → List ℕ) : Program → Type 0 where
    start :
        (memory : ℕ → SendFormat) (id hid_id product : ℕ) (m : Message)
        → IsCleared memory
        → Run words (record {
          system = start_of (started memory id);
          reads = false;
          held = none;
          product = product;
          msg = m;
          hid = Tasks.started words hid_id;
        })
    turn : {p q : Program} → Run words p → Turn p q → Run words q
