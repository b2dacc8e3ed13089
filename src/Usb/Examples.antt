-- ===== src/Usb/Examples.antt =====
-- A card reader that types a text, on concrete reports.
mod Runs
mod Wireless
use multi_port_convertor.Base.{
  Safe, ℕ, zero, suc, get_or, ◌≡◌, ◌≢◌, refl, List, [], ◌∷◌, arith, Option, some, none, faults,
  replicate, if◌then◌else◌, ◌==◌, length, ◌>>=◌,
}
use multi_port_convertor.Tool.Mailbox.{Message}
use multi_port_convertor.Uart.State.{zero_poll, Uart}
use multi_port_convertor.Uart.Notify.Frames.{queued}
use multi_port_convertor.Uart.Notify.Texts.{text_info}
use multi_port_convertor.Usb.Keys.{find_key}
use multi_port_convertor.Usb.Data.{Hid, key_of, on_report, on_silence, hid_data_round}
use multi_port_convertor.Usb.Data.Typing.{Holds, Yields, Types, arrives, on_reports}
use multi_port_convertor.Usb.Data.Text.{typed-return, typed-silence}
use multi_port_convertor.Usb.Data.Overflow.{on_reports-overflow}
use multi_port_convertor.Usb.Open.{hidraw, open_hid}
use multi_port_convertor.Usb.Open.Paths.{open_hid-blocked}
use multi_port_convertor.Usb.Disk.{Disks, possible_udisk, udisk_from}
use multi_port_convertor.Usb.Disk.Rounds.{Unmounted, udisk_from-Unmounted}

abbrev pub old : List ℕ
old = replicate 129 0

abbrev pub stack : List ℕ
stack = replicate 128 0

abbrev keys : List ℕ
keys = replicate 128 0

-- One free buffer.
abbrev pub port : Uart
port = record {
  free = 3 ∷ [];
  sends = [];
  formats = λ b. record {
    poll = zero_poll;
    cmd = record {
      head = 0;
      length_msb = 0;
      length_lsb = 0;
      sta_param = 0;
      sn = 0;
      pdt_type = 0;
      cmd_id = 0;
      payload = old;
    };
  };
  mailbox = [];
  uart_send_sn = 0;
  mbx_id = 5;
}

abbrev pub queued_report : Message
queued_report = record { id = 6; prio = 0; p = 2; data_len = 12 }

-- A card reader with no text yet; one report waits.
abbrev reader : Hid
reader = record {
  free = 0 ∷ 1 ∷ [];
  mailbox = queued_report ∷ [];
  mbx_id = 6;
  words = λ b. replicate 8 0;
  timer = 0;
  hid_key_buf = keys;
  hid_key_length = 0;
  hid_dev_type = 1;
}

reader-Holds : Holds [] keys 1 reader
reader-Holds = record { text = refl; count = refl; device = refl }

-- The report of the key A with the right shift key, and that of the return key.
abbrev pub key_a : List ℕ
key_a = 1 ∷ 32 ∷ 0 ∷ 4 ∷ 0 ∷ 0 ∷ 0 ∷ 0 ∷ []

abbrev key_return : List ℕ
key_return = 1 ∷ 0 ∷ 0 ∷ 40 ∷ 0 ∷ 0 ∷ 0 ∷ 0 ∷ []

key_a-found : key_of key_a ≡ some 65
unfolding key_of find_key
key_a-found = refl

key_return-found : key_of key_return ≡ some 13
unfolding key_of find_key
key_return-found = refl

not_return : (c : ℕ) → c ≡ 65 → c ≢ 13
not_return c h e = absurd (omega arith)

typed-return_example :
    Yields
      (λ h u.
        (h.hid_key_length ≡ 0)
        × (length h.hid_key_buf ≡ 128)
        × (u ≡ queued (text_info (65 ∷ []) 1 stack) port 3 [] (1 ∷ 65 ∷ []) old))
      (on_reports stack ((0, key_a) ∷ []) reader port
        >>= (λ (h, u). on_report stack 1 (arrives 1 key_return h) u))
typed-return_example =
    typed-return stack keys 1 refl 3 [] old refl refl ((0, key_a) ∷ []) (65 ∷ []) 1 key_return
      reader port (key_a-found, not_return 65 refl, refl) (omega arith) key_return-found
      reader-Holds refl refl

typed-silence_example :
    Yields
      (λ h u.
        (h.hid_key_length ≡ 0)
        × (length h.hid_key_buf ≡ 128)
        × (u ≡ queued (text_info (65 ∷ []) 1 stack) port 3 [] (1 ∷ 65 ∷ []) old))
      (on_reports stack ((0, key_a) ∷ []) reader port
        >>= (λ (h, u). on_silence stack (record h { timer = 12 }) u))
typed-silence_example =
    typed-silence stack keys 1 refl 3 [] old refl refl ((0, key_a) ∷ []) (65 ∷ []) 12 reader port
      (key_a-found, not_return 65 refl, refl) (omega arith) (omega arith) (omega arith) reader-Holds
      refl refl

repeated-Types : (n : ℕ) → Types (replicate n (0, key_a)) (replicate n 65)
repeated-Types zero = refl
repeated-Types (suc n) = (key_a-found, not_return 65 refl, repeated-Types n)

on_reports-overflow_example : on_reports stack (replicate 129 (0, key_a)) reader port ≡ faults
on_reports-overflow_example =
    on_reports-overflow stack keys 1 refl (replicate 129 (0, key_a)) (replicate 129 65) [] reader
      port (repeated-Types 129) reader-Holds (omega arith) (omega arith)

-- Only the second device file opens.
abbrev opens_second : List ℕ → Option ℕ
opens_second path = if get_or path 11 0 == b'1' then some 5 else none

-- All device files are there, and the second one opens.
open_hid-blocked_example : open_hid (λ path. 0) opens_second ≡ none
open_hid-blocked_example =
    open_hid-blocked (λ path. 0) opens_second [] (hidraw b'0') (hidraw b'1' ∷ hidraw b'2' ∷ []) refl
      tt refl (λ more. refl)

-- No disk is mounted, and the second device file is there.
abbrev pub disks : Disks
disks = record {
  g_udisk = λ i. record { port = 0; state = 1; all_capacity = 0; left_capacity = 0; dir = [] };
  net = λ i. record { state = i; course = 0; err = 0 };
  uart = record port { free = 3 ∷ 4 ∷ [] };
  shell = [];
}

abbrev second_disk : List ℕ → ℕ
second_disk name = if get_or name 2 0 == b'b' then 0 else 1

udisk_from-Unmounted_example : Safe Unmounted (
    udisk_from stack second_disk
      (λ name. 0)
      1000
      500
      (some (b'a' ∷ [], b'b' ∷ []))
      possible_udisk
      disks)
udisk_from-Unmounted_example =
    udisk_from-Unmounted stack second_disk (λ name. 0) 1000 500 (some (b'a' ∷ [], b'b' ∷ []))
      possible_udisk disks (λ i. refl)
