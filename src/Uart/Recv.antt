-- ===== src/Uart/Recv.antt =====
-- `uart_recv_tsk` of uart/uart_communicat.c: a frame is put together and handled.
use multi_port_convertor.Base.{
  ℕ, ◌+◌, ◌-◌, ◌%◌, ◌≤◌, ◌≡◌, refl, ap, ◌∙◌, true, false, List, [], ◌∷◌, ◌++◌, arith, Option, none,
  Outcome, done, ◌>>=◌, if◌then◌else◌, has, length, length-append, drop, append_assoc,
  get_or-append_length, word, ==_refl,
}
use multi_port_convertor.Uart.Frame.{frame_of, procotol_check}
use multi_port_convertor.Uart.Frame.Checksum.{sum, procotol_check_lem}
use multi_port_convertor.Uart.State.{Uart}
use multi_port_convertor.Uart.Notify.Frames.{take-content}
use multi_port_convertor.Uart.Receive.{Receiver, recv_size, uart_get_data}
use multi_port_convertor.Uart.Receive.Framing.{resting, uart_get_data-frame}
use multi_port_convertor.Uart.Parse.{Surroundings, uart_protocol_parse}
use multi_port_convertor.Uart.Parse.Answers.{answered, parse-que_sta}
use multi_port_convertor.Uart.Reply.Status.{status_bytes}

-- One round of the task on the bytes that the port will give: the variables of `uart_get_data`, the
-- bytes that are left, the state, and a command for the shell.
unfoldable pub uart_recv :
    Surroundings → Receiver → List ℕ → Uart → Outcome (Receiver × List ℕ × Uart × Option (List ℕ))
uart_recv env r chs u = do
  (got, r', rest) ← uart_get_data r chs
  let handled = (do
    (v, shell) ← uart_protocol_parse env (frame_of r'.buf) u
    done (r', rest, v, shell))
  (if got then handled else done (r', rest, u, none))

-- What the device sends: its header, a query for the ports, and the check sum.
abbrev pub query_body : (sta sn pdt : ℕ) → List ℕ → List ℕ
query_body sta sn pdt ports =
    sta ∷ sn ∷ pdt ∷ 0x11 ∷ (ports ++ ((sta + (sn + (pdt + (0x11 + sum ports)))) % 256 ∷ []))

-- A frame whose check byte is the sum of its header and its data.
summed :
    (head sta sn pdt id : ℕ) (ports beyond : List ℕ)
    → length ports ≤ 124
    → procotol_check (record {
      head = head;
      length_msb = 0;
      length_lsb = length ports + 4;
      sta_param = sta;
      sn = sn;
      pdt_type = pdt;
      cmd_id = id;
      payload = ports ++ ((sta + (sn + (pdt + (id + sum ports)))) % 256 ∷ beyond);
    })
      ≡ done true
summed head sta sn pdt id ports beyond l =
    let c = (sta + (sn + (pdt + (id + sum ports)))) % 256 in
    let e : word 0 (length ports + 4) ≡ length ports + 4 = omega arith in
    let k : length ports + 4 - 4 ≡ length ports = omega arith in
    procotol_check_lem _ (omega arith) (omega (arith, length-append ports (c ∷ beyond)))
      (omega arith)
    ∙ rw
        (e, k, get_or-append_length ports beyond c 0, take-content sta sn pdt id ports (c ∷ beyond))
        (ap done (==_refl c))

-- The receiver's buffer behind the frame, which held `buf`.
abbrev pub query_buf : (buf : List ℕ) (sta sn pdt : ℕ) → List ℕ → List ℕ
query_buf buf sta sn pdt ports =
    let body = query_body sta sn pdt ports in
    0xC0 ∷ 0 ∷ (length ports + 4) ∷ (body ++ drop (length body) (drop 3 buf))

module _ (env : Surroundings) (buf noise next ports : List ℕ) (sta sn pdt : ℕ) (u : Uart) (b : ℕ)
    (rest old : List ℕ) where
  check : ℕ
  check = (sta + (sn + (pdt + (0x11 + sum ports)))) % 256

  beyond : List ℕ
  beyond = drop (length (query_body sta sn pdt ports)) (drop 3 buf)

  frame-payload : (frame_of (query_buf buf sta sn pdt ports)).payload ≡ ports ++ (check ∷ beyond)
  unfolding check beyond
  frame-payload = append_assoc ports (check ∷ []) beyond

  query-valid :
      length ports ≤ 124 → procotol_check (frame_of (query_buf buf sta sn pdt ports)) ≡ done true
  unfolding check beyond
  query-valid l =
      ap
        (λ p. procotol_check (record {
          head = 0xC0;
          length_msb = 0;
          length_lsb = length ports + 4;
          sta_param = sta;
          sn = sn;
          pdt_type = pdt;
          cmd_id = 0x11;
          payload = p;
        }))
        frame-payload
      ∙ summed 0xC0 sta sn pdt 0x11 ports beyond l

  -- Between two frames, with a buffer of 136 bytes and a free buffer of 129 bytes of data: behind
  -- any bytes without a start byte, the bytes of a query for at most 124 ports, whose known ones
  -- give at most 128 bytes, are put together and checked and answered by one frame with the three
  -- bytes of each known port, in the query's order. It is queued behind the others; what follows on
  -- the line is not read, and the variables are ready for the next frame.
  pub uart_recv-que_sta :
      length buf ≡ recv_size
      → has 0xC0 noise ≡ false
      → length ports ≤ 124
      → length (status_bytes env.net ports) ≤ 128
      → u.free ≡ b ∷ rest
      → (u.formats b).cmd.payload ≡ old
      → length old ≡ 129
      → uart_recv env
          (resting buf)
          (noise ++ (0xC0 ∷ 0 ∷ (length ports + 4) ∷ (query_body sta sn pdt ports ++ next)))
          u
        ≡ done (
          resting (query_buf buf sta sn pdt ports),
          next,
          answered u b rest
              (frame_of (query_buf buf sta sn pdt ports))
              0x11
              (status_bytes env.net ports)
              old,
          none,
        )
  unfolding uart_recv beyond check
  uart_recv-que_sta s n l o f e r =
      let body = query_body sta sn pdt ports in
      rw
        (
          uart_get_data-frame buf noise body next 0 (length ports + 4) s n
              (omega (arith, length-append ports (check ∷ []))) (omega arith),
          parse-que_sta env (frame_of (query_buf buf sta sn pdt ports)) u b rest old (query-valid l)
              f e r ports (check ∷ beyond) refl frame-payload (omega arith) o,
        )
        refl
