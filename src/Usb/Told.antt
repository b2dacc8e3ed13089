-- ===== src/Usb/Told.antt =====
-- What the tasks of usb/usb_communicat.c do to the state of the serial port: in each step they make
-- one notification at most.
use multi_port_convertor.Base.{
  ℕ, ◌≤◌, ◌≡◌, refl, Bool, List, arith, Option, none, some, Outcome, done, exits, faults, Safe,
  Safe-bind, Safe-if, always, ◌==◌, leb, if◌then◌else◌, put, copy, read,
}
use multi_port_convertor.Tool.Mailbox.{Message, mailbox_timedpend}
use multi_port_convertor.Uart.State.{Uart}
use multi_port_convertor.Uart.Notify.{
  SendInfo, uart_protocol_dispose, hid_insert_ntf, hid_pullout_ntf, hid_data_ntf,
}
use multi_port_convertor.Usb.Keys.{find_hid_type}
use multi_port_convertor.Usb.Data.{
  Hid, hid_time_out, key_of, send_text, on_key, on_report, on_silence, hid_data_round,
}
use multi_port_convertor.Usb.Reader.{connect, on_read}

pub data Told (u v : Uart) : Type 0 where
  same : v ≡ u → Told u v
  told : (info : SendInfo) → info.poll_type ≤ 1 → uart_protocol_dispose info u ≡ done v → Told u v

module _ (u : Uart) where
  disposed :
      (info : SendInfo) (o : Outcome Uart)
      → info.poll_type ≤ 1
      → uart_protocol_dispose info u ≡ o
      → Safe (Told u) o
  disposed info (done v) p e = told info p e
  disposed info exits p e = tt
  disposed info faults p e = tt

  dispose-Told :
      (info : SendInfo) → info.poll_type ≤ 1 → Safe (Told u) (uart_protocol_dispose info u)
  dispose-Told info p = disposed info (uart_protocol_dispose info u) p refl

  module _ (stack : List ℕ) where
    insert-Told : (dev_type : ℕ) → Safe (Told u) (hid_insert_ntf stack dev_type u)
    unfolding hid_insert_ntf
    insert-Told dev_type =
        Safe-bind (λ _. Unit {0}) (Told u) (put stack 0 dev_type) _ (always _)
          (λ d _. dispose-Told _ (omega arith))

    pullout-Told : (dev_type : ℕ) → Safe (Told u) (hid_pullout_ntf stack dev_type u)
    unfolding hid_pullout_ntf
    pullout-Told dev_type =
        Safe-bind (λ _. Unit {0}) (Told u) (put stack 0 dev_type) _ (always _)
          (λ d _. dispose-Told _ (omega arith))

    data-Told : (text : List ℕ) (dev_type : ℕ) → Safe (Told u) (hid_data_ntf stack text dev_type u)
    unfolding hid_data_ntf
    data-Told text dev_type =
        Safe-bind (λ _. Unit {0}) (Told u) (put stack 0 dev_type) _ (always _)
          (λ d _.
            Safe-bind (λ _. Unit {0}) (Told u) (copy d 1 text) _ (always _)
              (λ d' _. dispose-Told _ (omega arith)))

    pub connect-Told :
        (fd : Option ℕ) (product : ℕ) (h : Hid)
        → Safe (λ x. Told u x.2) (connect stack fd product h u)
    unfolding connect
    connect-Told none product h = same refl
    connect-Told (some fd) product h =
        Safe-if (λ x. Told u x.2) (fd == 0) _ _ (same refl)
          (Safe-if (λ x. Told u x.2) (find_hid_type product == 0) _ _ (same refl)
            (Safe-bind {A = Uart} {B = Bool × Hid × Uart} (Told u) (λ x. Told u x.2) _ _
              (insert-Told (find_hid_type product)) (λ u' t. t)))

    pub on_read-Told :
        (b : ℕ) (w : Option (List ℕ)) (h : Hid) → Safe (λ x. Told u x.2) (on_read stack b w h u)
    unfolding on_read
    on_read-Told b none h =
        Safe-bind {A = Uart} {B = Bool × Hid × Uart} (Told u) (λ x. Told u x.2) _ _
          (pullout-Told h.hid_dev_type) (λ u' t. t)
    on_read-Told b (some bytes) h = same refl

    send_text-Told : (h : Hid) → Safe (λ x. Told u x.1) (send_text stack h u)
    unfolding send_text
    send_text-Told h =
        Safe-bind (λ _. Unit {0}) (λ x. Told u x.1) (put h.hid_key_buf h.hid_key_length 0) _
          (always _)
          (λ buf _.
            Safe-bind (λ _. Unit {0}) (λ x. Told u x.1) (read buf h.hid_key_length) _ (always _)
              (λ text _.
                Safe-bind {A = Uart} {B = Hid × Uart} (Told u) (λ x. Told u x.1) _ _
                  (data-Told text h.hid_dev_type) (λ u' t. t)))

    on_key-Told : (k : Option ℕ) (h : Hid) → Safe (λ x. Told u x.1) (on_key stack k h u)
    unfolding on_key
    on_key-Told none h = same refl
    on_key-Told (some c) h =
        Safe-if (λ x. Told u x.1) (c == 13) _ _ (send_text-Told h)
          (Safe-bind (λ _. Unit {0}) (λ x. Told u x.1) (put h.hid_key_buf h.hid_key_length c) _
            (always _) (λ buf _. same refl))

    on_report-Told : (b : ℕ) (h : Hid) → Safe (λ x. Told u x.1) (on_report stack b h u)
    unfolding on_report
    on_report-Told b h =
        Safe-bind (λ x. Told u x.1) (λ x. Told u x.1)
          (on_key stack (key_of (h.words b)) (record h { timer = 0 }) u) _
          (on_key-Told (key_of (h.words b)) (record h { timer = 0 })) (λ x t. t)

    on_silence-Told : (h : Hid) → Safe (λ x. Told u x.1) (on_silence stack h u)
    unfolding on_silence
    on_silence-Told h =
        Safe-if (λ x. Told u x.1) (leb hid_time_out h.timer) _ _
          (Safe-bind (λ x. Told u x.1) (λ x. Told u x.1)
            (if h.hid_key_length == 0 then done (h, u) else send_text stack h u) _
            (Safe-if (λ x. Told u x.1) (h.hid_key_length == 0) _ _ (same refl) (send_text-Told h))
            (λ x t. t))
          (same refl)

    pub hid_data_round-Told :
        (msg : Message) (h : Hid) → Safe (λ x. Told u x.2) (hid_data_round stack msg h u)
    unfolding hid_data_round
    hid_data_round-Told msg h =
        let (came, m, rest) = mailbox_timedpend msg h.mailbox in
        Safe-bind {A = Hid × Uart} {B = Message × Hid × Uart} (λ x. Told u x.1) (λ x. Told u x.2)
          (if came
            then on_report stack m.p (record h { mailbox = rest }) u
            else on_silence stack h u)
          _
          (Safe-if (λ x. Told u x.1) came _ _ (on_report-Told m.p (record h { mailbox = rest }))
            (on_silence-Told h))
          (λ x t. t)
