-- ===== src/Uart/Upload/Zone.antt =====
-- The time zone of a measurement in `http_up_data_rsp` of uart/uart_protocol.c.
use multi_port_convertor.Base.{ℕ, ◌-◌, ◌/◌, ◌≤◌, ◌<◌, ◌≡◌, [], ◌∷◌, ◌++◌, arith, u16, word, decimal}
use multi_port_convertor.Uart.Upload.{zone_text}

-- A zone of `k` half hours west of Greenwich, for `k` from 1 to 48, sent as the 16-bit number `-k`,
-- is written as a zone of `(65536 - k) / 2` hours in the east.
pub zone_text-west :
    (msb lsb k : ℕ)
    → 0 < k
    → k ≤ 48
    → word msb lsb ≡ 65536 - k
    → zone_text (u16 (word msb lsb / 2)) ≡ b'+' ∷ (decimal ((65536 - k) / 2) ++ (b'0' ∷ b'0' ∷ []))
unfolding zone_text
zone_text-west msb lsb k p h e =
    let n : u16 (word msb lsb / 2) ≡ (65536 - k) / 2 = omega arith in rw n (ground arith)
