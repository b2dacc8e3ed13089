-- ===== src/Uart/Examples/Uploads.antt =====
-- A measurement of the device, on concrete bytes.
use multi_port_convertor.Base.{ℕ, ◌≡◌, refl, [], ◌∷◌, ◌++◌, done, decimal}
use multi_port_convertor.Uart.State.{SystemInfo}
use multi_port_convertor.Uart.Upload.{Tm, zone_text, time_text, serial_text, measurement_of}
use multi_port_convertor.Uart.Upload.Fields.{measurement_of-fields}

abbrev some_day : ℕ → Tm
some_day t = record { tm_year = 117; tm_mon = 2; tm_mday = 13; tm_hour = 8; tm_min = 5; tm_sec = t }

abbrev device : SystemInfo
device = record {
  firmware_ver = 1 ∷ 0 ∷ 0 ∷ [];
  hardware_ver = 1 ∷ 0 ∷ 0 ∷ [];
  protocol_ver = 1 ∷ 0 ∷ 0 ∷ [];
  mac = 10 ∷ 11 ∷ 12 ∷ 13 ∷ 14 ∷ 15 ∷ [];
  time_valid = 1;
  timezone = 16;
  poweron = 0;
}

measurement_of-fields_example :
    measurement_of some_day device 255
      (b'7' ∷ b'3' ∷ 0 ∷ 0 ∷ 16 ∷ 0 ∷ 0 ∷ 0 ∷ 30 ∷ 0 ∷ 120 ∷ 0 ∷ 80 ∷ 0 ∷ 66 ∷ [])
    ≡ done (
      record {
        queue_num = decimal 255;
        card_no = b'7' ∷ b'3' ∷ [];
        time_zone = zone_text 8;
        measure_time = time_text (some_day 30) ++ zone_text 8;
        tall_pressure = 120;
        low_pressure = 80;
        heart_rate = 66;
        device_serial = serial_text (10 ∷ 11 ∷ 12 ∷ 13 ∷ 14 ∷ 15 ∷ []);
      },
      0,
    )
measurement_of-fields_example =
    measurement_of-fields some_day device 255 (b'7' ∷ b'3' ∷ []) [] 0 16 0 0 0 30 0 120 0 80 0 66
      refl
