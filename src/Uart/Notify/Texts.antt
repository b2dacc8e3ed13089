-- ===== src/Uart/Notify/Texts.antt =====
-- The notification that carries a text from a reader, `hid_data_ntf` of uart/uart_protocol.c.
use multi_port_convertor.Base.{
  ℕ, zero, suc, ◌+◌, ◌%◌, ◌≤◌, ◌<◌, ◌≡◌, refl, ap, ◌∙◌, List, [], ◌∷◌, ◌++◌, arith, done, faults,
  put-done, copy, copy-done, read-done, length, length-append, length-set, length-drop, drop,
  take-append, set,
}
use multi_port_convertor.Uart.State.{Uart}
use multi_port_convertor.Uart.Notify.{SendInfo, hid_data_ntf}
use multi_port_convertor.Uart.Notify.Frames.{queued, uart_protocol_dispose-queued}

-- What `hid_data_ntf` hands on: the text behind the device's type, in an array that held `stack`.
abbrev pub text_info : List ℕ → ℕ → List ℕ → SendInfo
text_info text dev_type stack = record {
  cmd_id = 0x22;
  len = suc (length text);
  pdt_type = 0xA1;
  content = dev_type ∷ (text ++ drop (suc (length text)) stack);
  poll_type = 1;
}

pub set_first : (stack : List ℕ) (v : ℕ) → 0 < length stack → set stack 0 v ≡ v ∷ drop 1 stack
set_first [] v h = absurd (omega arith)
set_first (x ∷ stack) v h = refl

drop-suc : (n : ℕ) (v : ℕ) (stack : List ℕ) → drop (suc n) (v ∷ drop 1 stack) ≡ drop (suc n) stack
drop-suc n v [] = drop_nil n
  where
    drop_nil : (n : ℕ) → drop {A = ℕ} n [] ≡ []
    drop_nil zero = refl
    drop_nil (suc n) = refl
drop-suc n v (x ∷ stack) = refl

-- A text of at most 127 characters is queued in one frame, behind the device's type.
pub hid_data_ntf-queued :
    (stack text : List ℕ) (dev_type : ℕ) (u : Uart) (b : ℕ) (rest old : List ℕ)
    → length stack ≡ 128
    → length text ≤ 127
    → u.free ≡ b ∷ rest
    → (u.formats b).cmd.payload ≡ old
    → length old ≡ 129
    → hid_data_ntf stack text dev_type u
      ≡ done (queued (text_info text dev_type stack) u b rest (dev_type ∷ text) old)
unfolding hid_data_ntf
hid_data_ntf-queued stack text dev_type u b rest old s t f e o =
    let w : (length text + 1) % 4294967296 ≡ suc (length text) = omega arith in
    let one : 1 + length text ≡ suc (length text) = omega arith in
    let tail = drop (suc (length text)) stack in
    rw
      (
        put-done stack 0 dev_type (omega arith),
        set_first stack dev_type (omega arith),
        copy-done (dev_type ∷ drop 1 stack) 1 text (omega (arith, length-drop 1 stack)),
        one,
        drop-suc (length text) dev_type stack,
        w,
      )
      (uart_protocol_dispose-queued (text_info text dev_type stack) u b rest (dev_type ∷ text) old
        refl (omega arith) o f e
        (read-done (dev_type ∷ (text ++ tail)) (suc (length text))
            (omega (arith, length-append text tail))
          ∙ ap (λ bs. done (dev_type ∷ bs)) (take-append text tail)))

-- A text of 128 characters or more is written past the array of `uart_send_info_t`.
pub hid_data_ntf-faults :
    (stack text : List ℕ) (dev_type : ℕ) (u : Uart)
    → length stack ≡ 128
    → 127 < length text
    → hid_data_ntf stack text dev_type u ≡ faults
unfolding hid_data_ntf copy
hid_data_ntf-faults stack text dev_type u s t =
    ground (arith, put-done stack 0 dev_type, length-set stack 0 dev_type)
