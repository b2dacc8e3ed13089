-- ===== src/Uart/Upload.antt =====
-- The object that `http_up_data_rsp` of uart/uart_protocol.c makes of a measurement.
pub mod Fields
pub mod Zone
use multi_port_convertor.Base.{
  ℕ, ◌+◌, ◌-◌, ◌*◌, ◌/◌, ◌^◌, List, [], ◌∷◌, ◌++◌, Outcome, done, ◌>>=◌, ltb, if◌then◌else◌, length,
  u8, u16, u32, word, fetch, get_or, drop, decimal, two_digits, hex_byte,
}
use multi_port_convertor.Uart.State.{SystemInfo}
use multi_port_convertor.Uart.Reply.{c_string}

-- What `gmtime` gives.
pub record Tm : Type 0 where
  pub tm_year : ℕ
  pub tm_mon : ℕ
  pub tm_mday : ℕ
  pub tm_hour : ℕ
  pub tm_min : ℕ
  pub tm_sec : ℕ

-- The members of the object, by their names. All but the last three measured values are texts.
pub record Measurement : Type 0 where
  pub queue_num : List ℕ
  pub card_no : List ℕ
  pub time_zone : List ℕ
  pub measure_time : List ℕ
  pub tall_pressure : ℕ
  pub low_pressure : ℕ
  pub heart_rate : ℕ
  pub device_serial : List ℕ

-- The text of the variable `timezone`, here its pattern of 16 bits.
unfoldable pub zone_text : ℕ → List ℕ
zone_text timezone =
    let abs = 65536 - timezone in
    let east =
      if ltb timezone 10
      then b'+' ∷ b'0' ∷ (decimal timezone ++ (b'0' ∷ b'0' ∷ []))
      else b'+' ∷ (decimal timezone ++ (b'0' ∷ b'0' ∷ [])) in
    let west =
      if ltb abs 10
      then b'-' ∷ b'0' ∷ (decimal abs ++ (b'0' ∷ b'0' ∷ []))
      else b'-' ∷ (decimal abs ++ (b'0' ∷ b'0' ∷ [])) in
    if ltb timezone 32768 then east else west

abbrev joined : List (List ℕ) → List ℕ
joined [] = []
joined (x ∷ xs) = x ++ joined xs

-- `"%d-%02d-%02d %02d:%02d:%02d.000 "`
unfoldable pub time_text : Tm → List ℕ
time_text t = joined (
    decimal (t.tm_year + 1900)
    ∷ (b'-' ∷ [])
    ∷ two_digits t.tm_mon
    ∷ (b'-' ∷ [])
    ∷ two_digits t.tm_mday
    ∷ (32 ∷ [])
    ∷ two_digits t.tm_hour
    ∷ (b':' ∷ [])
    ∷ two_digits t.tm_min
    ∷ (b':' ∷ [])
    ∷ two_digits t.tm_sec
    ∷ (b'.' ∷ b'0' ∷ b'0' ∷ b'0' ∷ 32 ∷ [])
    ∷ [])

-- `"%02x:%02x:%02x:%02x:%02x:%02x"`
unfoldable pub serial_text : List ℕ → List ℕ
serial_text mac =
    let at_index : ℕ → List ℕ = λ i. hex_byte (get_or mac i 0) in
    joined (
      at_index 0
      ∷ (b':' ∷ [])
      ∷ at_index 1
      ∷ (b':' ∷ [])
      ∷ at_index 2
      ∷ (b':' ∷ [])
      ∷ at_index 3
      ∷ (b':' ∷ [])
      ∷ at_index 4
      ∷ (b':' ∷ [])
      ∷ at_index 5
      ∷ [])

-- `(data[p] << 8) | data[p + 1]`
unfoldable pub fetch_word : List ℕ → ℕ → Outcome ℕ
fetch_word d p = do msb ← fetch d p; lsb ← fetch d (p + 1); done (word msb lsb)

unfoldable pub fetch_time : List ℕ → ℕ → Outcome ℕ
unfolding fetch_word
fetch_time d p = do
  high ← fetch_word d p
  low ← fetch_word d (p + 2)
  done (u32 (high * 2 ^ 16 + low))

-- `http_up_data_rsp` up to the text of the object: `d` is `Data_p->data`, and `gmtime` the function
-- of that name. The second part of the result is `http_send_sn`.
unfoldable pub measurement_of :
    (gmtime : ℕ → Tm) → SystemInfo → ℕ → List ℕ → Outcome (Measurement × ℕ)
unfolding zone_text time_text serial_text fetch_time
measurement_of gmtime sys http_send_sn d = do
  card ← c_string d
  let p = length card + 1
  zone ← fetch_word d p
  utc_time ← fetch_time d (p + 2)
  tall ← fetch_word d (p + 6)
  low ← fetch_word d (p + 8)
  rate ← fetch_word d (p + 10)
  let time_zone = zone_text (u16 (zone / 2))
  done (
    record {
      queue_num = decimal http_send_sn;
      card_no = card;
      time_zone = time_zone;
      measure_time = time_text (gmtime utc_time) ++ time_zone;
      tall_pressure = tall;
      low_pressure = low;
      heart_rate = rate;
      device_serial = serial_text sys.mac;
    },
    u8 (http_send_sn + 1),
  )
