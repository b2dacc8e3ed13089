-- ===== src/Uart/Reply/Time.antt =====
-- The answers to the time query and to the power-on query of uart/uart_protocol.c.
use multi_port_convertor.Base.{
  ℕ, ◌+◌, ◌*◌, ◌/◌, ◌%◌, ◌^◌, ◌<◌, ◌≡◌, ap, List, [], ◌∷◌, ◌++◌, arith, done, length, length-append,
  take, get_or, word, append_assoc,
}
use multi_port_convertor.Uart.State.{SystemInfo}
use multi_port_convertor.Uart.Reply.{time_sync_rsp, drv_poweron_rsp}
use multi_port_convertor.Uart.Reply.Fill.{filled, add_byte-filled, add_bytes-filled}

-- Whether the time is valid, the time zone, and the seconds, each with its high byte first.
abbrev pub time_bytes : SystemInfo → ℕ → List ℕ
time_bytes sys t =
    sys.time_valid % 256
    ∷ sys.timezone / 2 ^ 8 % 256
    ∷ sys.timezone % 256
    ∷ t / 2 ^ 24 % 256
    ∷ t / 2 ^ 16 % 256
    ∷ t / 2 ^ 8 % 256
    ∷ t % 256
    ∷ []

-- What the device reads from the answer.
abbrev pub seconds_of : List ℕ → ℕ
seconds_of bs =
    get_or bs 3 0 * 2 ^ 24 + get_or bs 4 0 * 2 ^ 16 + get_or bs 5 0 * 2 ^ 8 + get_or bs 6 0

abbrev pub timezone_of : List ℕ → ℕ
timezone_of bs = word (get_or bs 1 0) (get_or bs 2 0)

-- With a time zone of 16 bits, `time_sync_rsp` answers with seven bytes, from which the time zone's
-- 16 bits and the seconds modulo 2 ^ 32 can be read back.
pub time_sync_rsp-time :
    (sys : SystemInfo) (t : ℕ) (old : List ℕ)
    → sys.timezone < 65536
    → length old ≡ 129
    → (time_sync_rsp sys t (record { payload = old; len = 0 })
        ≡ done (filled (time_bytes sys t) old))
      × (timezone_of (time_bytes sys t) ≡ sys.timezone)
      × (seconds_of (time_bytes sys t) ≡ t % 2 ^ 32)
unfolding time_sync_rsp
time_sync_rsp-time sys t old z o =
    let out : ℕ → List ℕ = λ n. take n (time_bytes sys t) in
    (
      rw (
        add_byte-filled sys.time_valid [] old (omega arith) (omega arith),
        add_byte-filled (sys.timezone / 2 ^ 8) (out 1) old (omega arith) (omega arith),
        add_byte-filled sys.timezone (out 2) old (omega arith) (omega arith),
        add_byte-filled (t / 2 ^ 24) (out 3) old (omega arith) (omega arith),
        add_byte-filled (t / 2 ^ 16) (out 4) old (omega arith) (omega arith),
        add_byte-filled (t / 2 ^ 8) (out 5) old (omega arith) (omega arith),
        add_byte-filled t (out 6) old (omega arith) (omega arith),
      ),
      omega arith,
      omega arith,
    )

-- The arrays of `system_info_t` have the sizes that it declares.
pub record IsSized (sys : SystemInfo) : Type 0 where
  pub firmware : length sys.firmware_ver ≡ 3
  pub hardware : length sys.hardware_ver ≡ 3
  pub protocol : length sys.protocol_ver ≡ 3
  pub address : length sys.mac ≡ 6

-- The power-on state, the three versions and the hardware address.
abbrev pub poweron_bytes : ℕ → SystemInfo → List ℕ
poweron_bytes state sys =
    state ∷ (sys.firmware_ver ++ (sys.hardware_ver ++ (sys.protocol_ver ++ sys.mac)))

-- `drv_poweron_rsp` answers with 16 bytes: the power-on state, the versions and the address.
pub drv_poweron_rsp-poweron :
    (sys : SystemInfo) (old : List ℕ)
    → IsSized sys
    → length old ≡ 129
    → (drv_poweron_rsp sys (record { payload = old; len = 0 })
        ≡ done (filled (poweron_bytes (sys.poweron % 256) sys) old))
      × (length (poweron_bytes (sys.poweron % 256) sys) ≡ 16)
unfolding drv_poweron_rsp
drv_poweron_rsp-poweron sys old v o =
    let w = sys.poweron % 256 in
    let l3 = length-append sys.protocol_ver sys.mac in
    let l2 = length-append sys.hardware_ver (sys.protocol_ver ++ sys.mac) in
    let l1 = length-append sys.firmware_ver (sys.hardware_ver ++ (sys.protocol_ver ++ sys.mac)) in
    (
      rw
          (
            add_byte-filled sys.poweron [] old (omega arith) (omega arith),
            add_bytes-filled sys.firmware_ver (w ∷ []) old (omega (arith, v)) (omega arith),
            add_bytes-filled sys.hardware_ver (w ∷ sys.firmware_ver) old (omega (arith, v))
                (omega arith),
            add_bytes-filled sys.protocol_ver (w ∷ (sys.firmware_ver ++ sys.hardware_ver)) old
                (omega (arith, v, length-append sys.firmware_ver sys.hardware_ver)) (omega arith),
            add_bytes-filled sys.mac
                (w ∷ ((sys.firmware_ver ++ sys.hardware_ver) ++ sys.protocol_ver)) old
                (omega (
                  arith,
                  v,
                  length-append sys.firmware_ver sys.hardware_ver,
                  length-append (sys.firmware_ver ++ sys.hardware_ver) sys.protocol_ver,
                ))
                (omega arith),
          )
          (ap (λ bs. done (filled (w ∷ bs) old)) (simp append_assoc)),
      omega (arith, v),
    )
