-- ===== src/Uart/Upload/Fields.antt =====
-- What `http_up_data_rsp` of uart/uart_protocol.c reads from a frame of the device.
use multi_port_convertor.Base.{
  ℕ, suc, ◌+◌, ◌*◌, ◌/◌, ◌^◌, ◌<◌, ◌≡◌, refl, ap, ◌∙◌, false, List, [], ◌∷◌, ◌++◌, arith, has, done,
  length, length-append, u8, u16, u32, word, fetch, fetch-done, get_or, decimal,
}
use multi_port_convertor.Uart.State.{SystemInfo}
use multi_port_convertor.Uart.Reply.{c_string}
use multi_port_convertor.Uart.Upload.{
  Tm, zone_text, time_text, serial_text, fetch_word, fetch_time, measurement_of,
}

pub c_string-append :
    (card rest : List ℕ) → has 0 card ≡ false → c_string (card ++ (0 ∷ rest)) ≡ done card
unfolding c_string
c_string-append [] rest h = refl
c_string-append (c ∷ card) rest h = ground (arith, c_string-append card rest)

get_or-behind : (xs ys : List ℕ) (i : ℕ) → get_or (xs ++ ys) (length xs + i) 0 ≡ get_or ys i 0
get_or-behind [] ys i = ap (λ n. get_or ys n 0) (omega arith)
get_or-behind (x ∷ xs) ys i =
    let e : suc (length xs) + i ≡ suc (length xs + i) = omega arith in rw e (get_or-behind xs ys i)

fetch-behind :
    (xs ys : List ℕ) (n i : ℕ)
    → n ≡ length xs + i
    → i < length ys
    → fetch (xs ++ ys) n ≡ done (get_or ys i 0)
fetch-behind xs ys n i e h =
    fetch-done (xs ++ ys) n (omega (arith, length-append xs ys))
    ∙ rw e (ap done (get_or-behind xs ys i))

fetch_word-behind :
    (xs ys : List ℕ) (n i : ℕ)
    → n ≡ length xs + i
    → i + 1 < length ys
    → fetch_word (xs ++ ys) n ≡ done (word (get_or ys i 0) (get_or ys (i + 1) 0))
unfolding fetch_word
fetch_word-behind xs ys n i e h =
    rw (fetch-behind xs ys n i e (omega arith), fetch-behind xs ys (n + 1) (i + 1) (omega arith) h)
      refl

-- `http_up_data_rsp` reads from a frame the number of the card, up to its NUL, and behind it the
-- zone, the time and three values, each with its high byte first. It puts them under the names of
-- the object, with the running number and the hardware address, and counts the running number on
-- modulo 256.
pub measurement_of-fields :
    (gmtime : ℕ → Tm) (sys : SystemInfo) (sn : ℕ) (card after : List ℕ)
    (z1 z0 t3 t2 t1 t0 h1 h0 l1 l0 r1 r0 : ℕ)
    → has 0 card ≡ false
    → measurement_of gmtime sys sn
        (card ++ (0 ∷ z1 ∷ z0 ∷ t3 ∷ t2 ∷ t1 ∷ t0 ∷ h1 ∷ h0 ∷ l1 ∷ l0 ∷ r1 ∷ r0 ∷ after))
      ≡ done (
        record {
          queue_num = decimal sn;
          card_no = card;
          time_zone = zone_text (u16 (word z1 z0 / 2));
          measure_time =
              time_text (gmtime (u32 (word t3 t2 * 2 ^ 16 + word t1 t0)))
              ++ zone_text (u16 (word z1 z0 / 2));
          tall_pressure = word h1 h0;
          low_pressure = word l1 l0;
          heart_rate = word r1 r0;
          device_serial = serial_text sys.mac;
        },
        u8 (sn + 1),
      )
unfolding measurement_of fetch_time
measurement_of-fields gmtime sys sn card after z1 z0 t3 t2 t1 t0 h1 h0 l1 l0 r1 r0 h =
    let rest = 0 ∷ z1 ∷ z0 ∷ t3 ∷ t2 ∷ t1 ∷ t0 ∷ h1 ∷ h0 ∷ l1 ∷ l0 ∷ r1 ∷ r0 ∷ after in
    let at_index = λ (n i : ℕ) (e : n ≡ length card + i) (l : i + 1 < length rest).
      fetch_word-behind card rest n i e l in
    let p = length card + 1 in
    rw
      (
        c_string-append card (z1 ∷ z0 ∷ t3 ∷ t2 ∷ t1 ∷ t0 ∷ h1 ∷ h0 ∷ l1 ∷ l0 ∷ r1 ∷ r0 ∷ after) h,
        at_index p 1 refl (omega arith),
        at_index (p + 2) 3 (omega arith) (omega arith),
        at_index (p + 2 + 2) 5 (omega arith) (omega arith),
        at_index (p + 6) 7 (omega arith) (omega arith),
        at_index (p + 8) 9 (omega arith) (omega arith),
        at_index (p + 10) 11 (omega arith) (omega arith),
      )
      refl
