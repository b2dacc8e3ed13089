-- ===== src/Usb/Examples/Runs.antt =====
-- A run of the tasks of the readers: a card reader is found, and two of its reports are read.
use multi_port_convertor.Base.{ℕ, refl, true, List, [], ◌∷◌, none, some, replicate, put, read, copy}
use multi_port_convertor.Uart.Frame.{check_sum_cal}
use multi_port_convertor.Uart.Notify.{hid_insert_ntf, uart_protocol_dispose}
use multi_port_convertor.Usb.Keys.{find_hid_type}
use multi_port_convertor.Uart.Tasks.{buffers}
use multi_port_convertor.Uart.State.{Uart}
use multi_port_convertor.Usb.Reader.{connect, posted, take_buffer, on_read}
use multi_port_convertor.Usb.Reader.Buffers.{IsWhole}
use multi_port_convertor.Usb.Tasks.{
  Readers, Reach, here, next, open_round, take_round, read_round, started, set_hid,
}
use multi_port_convertor.Usb.Tasks.Whole.{readers-IsWhole}
use multi_port_convertor.Usb.Examples.{port, stack, queued_report, key_a}

abbrev empty_words : ℕ → List ℕ
empty_words b = replicate 8 0

abbrev found_state : Uart → Readers
found_state u = record {
  reads = true;
  held = none;
  product = 0x7638;
  msg = queued_report;
  hid = record (started empty_words 6) { hid_dev_type = 1 };
  uart = u;
}

run_found : (u : Uart) × Reach stack empty_words (found_state u)
unfolding connect set_hid find_hid_type hid_insert_ntf put uart_protocol_dispose read copy
    check_sum_cal
run_found = (_, next (here 6 0 queued_report port) (open_round (some 3) (some 0x7638) refl refl))

abbrev read_state : Uart → Readers
read_state u = record (found_state u) {
  hid = posted 0 key_a (record ((found_state u).hid) {
    free = 1 ∷ 2 ∷ 3 ∷ 4 ∷ 5 ∷ 6 ∷ 7 ∷ 8 ∷ 9 ∷ 10 ∷ 11 ∷ 12 ∷ 13 ∷ 14 ∷ 15 ∷ [];
  });
}

-- The reader has a buffer and waits for a report.
abbrev taken_state : Uart → Readers
taken_state u = record (found_state u) {
  held = some 0;
  hid = record ((found_state u).hid) {
    free = 1 ∷ 2 ∷ 3 ∷ 4 ∷ 5 ∷ 6 ∷ 7 ∷ 8 ∷ 9 ∷ 10 ∷ 11 ∷ 12 ∷ 13 ∷ 14 ∷ 15 ∷ [];
  };
}

run_taken : (u : Uart) × Reach stack empty_words (taken_state u)
unfolding take_buffer
run_taken = let (u, r) = run_found in (u, next r (take_round refl refl refl))

run_read : (u : Uart) × Reach stack empty_words (read_state u)
unfolding on_read
run_read = let (u, r) = run_taken in (u, next r (read_round (some key_a) refl refl))

readers-IsWhole_example : IsWhole buffers (0 ∷ []) (taken_state run_taken.0).hid
readers-IsWhole_example = readers-IsWhole stack empty_words run_taken.1
