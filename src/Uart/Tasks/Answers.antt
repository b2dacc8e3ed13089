-- ===== src/Uart/Tasks/Answers.antt =====
-- What a received frame does to the shared state, by `uart_protocol_parse` of uart/uart_protocol.c.
use multi_port_convertor.Base.{
  refl, ℕ, zero, suc, ◌+◌, ◌-◌, ◌/◌, ◌≤◌, ◌≡◌, ◌∙◌, List, ◌∷◌, arith, Option, none, Outcome, done,
  ◌>>=◌, Safe, Safe-bind, always, ltb, ◌==◌, Bool-cases, inl, inr, u8, u16, length, length-set,
  fetch, put, copy,
}
use multi_port_convertor.Tool.FreeList
use multi_port_convertor.Uart.Frame.{CmdFormat, frame_len}
use multi_port_convertor.Uart.State.{SystemInfo, NetState, Uart}
use multi_port_convertor.Uart.Reply.{
  Response, add_byte, add_bytes, net_at, que_from, que_sta_rsp, time_sync_rsp, drv_poweron_rsp,
  c_string, format_alone, print_ask,
}
use multi_port_convertor.Uart.Parse.{
  Surroundings, Command, Callback, que_sta_cb, time_sync_cb, drv_poweron_cb, print_cb,
  http_up_data_cb, poweron_rsp, hid_insert_rsp, hid_pullout_rsp, hid_data_rsp, print_sta_rsp,
  write_answer, answer_header, finish_answer, answer,
}
use multi_port_convertor.Uart.Tasks.Effects.{
  Queues, Rooms, put-Safe, copy-Safe, put-Queues, produce-Safe,
}

-- The array of an answer has its declared size, and what is written lies in it.
abbrev pub IsSizedResponse : Response → Type 0
IsSizedResponse r = (length r.payload ≡ 129) × (r.len ≤ 129)

abbrev Sized : Outcome Response → Type 0
Sized = Safe IsSizedResponse

add_byte-Sized : (v : ℕ) (r : Response) → IsSizedResponse r → Sized (add_byte v r)
unfolding add_byte
add_byte-Sized v r (s, l) =
    Safe-bind _ IsSizedResponse (put r.payload r.len (u8 v)) _ (put-Safe r.payload r.len (u8 v))
      (λ p h. (rw (h.1) (length-set r.payload r.len (u8 v) ∙ s), omega (arith, h.0)))

add_bytes-Sized : (src : List ℕ) (r : Response) → IsSizedResponse r → Sized (add_bytes src r)
unfolding add_bytes
add_bytes-Sized src r (s, l) =
    Safe-bind _ IsSizedResponse (copy r.payload r.len src) _ (copy-Safe r.payload r.len src)
      (λ p h. (h.1 ∙ s, omega (arith, h.0)))

-- One part of an answer behind another.
module _ (m : Response → Outcome Response) (k : Response → Outcome Response)
    (first : (r : Response) → IsSizedResponse r → Sized (m r))
    (second : (r : Response) → IsSizedResponse r → Sized (k r)) where
  then-Sized : (r : Response) → IsSizedResponse r → Sized (m r >>= k)
  then-Sized r s = Safe-bind IsSizedResponse IsSizedResponse (m r) k (first r s) second

que_from-Sized :
    (net : ℕ → NetState) (cmd : CmdFormat) (n i : ℕ) (r : Response)
    → IsSizedResponse r
    → Sized (que_from net cmd n i r)
unfolding que_from
que_from-Sized net cmd zero i r s = s
que_from-Sized net cmd (suc n) i r s =
    Safe-bind (λ p. Unit {0}) IsSizedResponse (fetch cmd.payload i) _ (always _)
      (λ port _.
        Safe-bind IsSizedResponse IsSizedResponse _ _
          (elim (Bool-cases (ltb port 4)) [
            | inl e ↦ rw e (add_bytes-Sized (net_at net port) r s)
            | inr e ↦ rw e s
          ])
          (λ r' s'. que_from-Sized net cmd n (i + 1) r' s'))

time_sync_rsp-Sized :
    (sys : SystemInfo) (tv : ℕ) (r : Response) → IsSizedResponse r → Sized (time_sync_rsp sys tv r)
unfolding time_sync_rsp
time_sync_rsp-Sized sys tv = then-Sized _ _ (add_byte-Sized _) (
    then-Sized _ _ (add_byte-Sized _) (
      then-Sized _ _ (add_byte-Sized _) (
        then-Sized _ _ (add_byte-Sized _) (
          then-Sized _ _ (add_byte-Sized _)
            (then-Sized _ _ (add_byte-Sized _) (add_byte-Sized _))))))

drv_poweron_rsp-Sized :
    (sys : SystemInfo) (r : Response) → IsSizedResponse r → Sized (drv_poweron_rsp sys r)
unfolding drv_poweron_rsp
drv_poweron_rsp-Sized sys = then-Sized _ _ (add_byte-Sized _) (
    then-Sized _ _ (add_bytes-Sized _)
      (then-Sized _ _ (add_bytes-Sized _) (then-Sized _ _ (add_bytes-Sized _) (add_bytes-Sized _))))

-- A response, and a command for the shell beside it.
abbrev SizedPair : Outcome (Response × Option (List ℕ)) → Type 0
SizedPair = Safe (λ x. IsSizedResponse x.0)

alone-Sized :
    (o : Outcome Response) (shell : Option (List ℕ))
    → Sized o
    → SizedPair (o >>= λ r. done (r, shell))
alone-Sized o shell s = Safe-bind IsSizedResponse (λ x. IsSizedResponse x.0) o _ s (λ r h. h)

print_ask-Sized :
    (access : ℕ) (cmd : CmdFormat) (r : Response)
    → IsSizedResponse r
    → SizedPair (print_ask access cmd r)
unfolding print_ask
print_ask-Sized access cmd r s = elim (Bool-cases (access == 0)) [
  | inl e ↦ rw e (alone-Sized (add_byte 2 r) none (add_byte-Sized 2 r s))
  | inr e ↦ rw e (
      Safe-bind IsSizedResponse (λ x. IsSizedResponse x.0) (add_byte 0 r) _ (add_byte-Sized 0 r s)
        (λ r' s'.
          Safe-bind (λ t. Unit {0}) (λ x. IsSizedResponse x.0) (c_string cmd.payload) _ (always _)
            (λ text _.
              Safe-bind (λ t. Unit {0}) (λ x. IsSizedResponse x.0) (format_alone text) _ (always _)
                (λ line _. s'))))
]

write_answer-Sized :
    (c : Callback) (env : Surroundings) (cmd : CmdFormat) (r : Response)
    → IsSizedResponse r
    → SizedPair (write_answer c env cmd r)
unfolding write_answer que_sta_rsp
write_answer-Sized que_sta_cb env cmd r s =
    alone-Sized _ none (que_from-Sized env.net cmd (frame_len cmd - 4) 0 r s)
write_answer-Sized time_sync_cb env cmd r s =
    alone-Sized _ none (time_sync_rsp-Sized env.sys env.tv_sec r s)
write_answer-Sized drv_poweron_cb env cmd r s =
    alone-Sized _ none (drv_poweron_rsp-Sized env.sys r s)
write_answer-Sized print_cb env cmd r s = print_ask-Sized env.access cmd r s
write_answer-Sized poweron_rsp env cmd r s = s
write_answer-Sized hid_insert_rsp env cmd r s = s
write_answer-Sized hid_pullout_rsp env cmd r s = s
write_answer-Sized hid_data_rsp env cmd r s = s
write_answer-Sized print_sta_rsp env cmd r s = s
write_answer-Sized http_up_data_cb env cmd r s = s

pub answer-Queues :
    (env : Surroundings) (cmd : CmdFormat) (c : Command) (u : Uart)
    → Rooms u
    → Safe (λ x. Queues 0 u x.0) (answer env cmd c u)
unfolding answer finish_answer
answer-Queues env cmd c u room =
    Safe-bind (λ x. u.free ≡ x.0 ∷ x.1) (λ x. Queues 0 u x.0) (FreeList.produce u.free) _
      (produce-Safe u.free)
      (λ x e.
        let old = (u.formats x.0).cmd in
        Safe-bind (λ y. IsSizedResponse y.0) (λ x. Queues 0 u x.0) _ _
          (write_answer-Sized c.callback env cmd (record { payload = old.payload; len = 0 })
            (room x.0, omega arith))
          (λ y s.
            let len = u16 (y.0.len + 4) in
            Safe-bind (Queues 0 u) (λ x. Queues 0 u x.0) _ _
              (put-Queues u 0 x.0 x.1 e
                (record (answer_header c cmd old) {
                  length_msb = u8 (len / 256);
                  length_lsb = u8 len;
                  payload = y.0.payload;
                })
                (len - 4) len u.uart_send_sn s.0 (λ h. omega arith) (λ h. omega arith) refl)
              (λ v q. q)))
