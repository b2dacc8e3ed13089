-- ===== src/Uart/Notify/Overlap.antt =====
-- `uart_protocol_dispose` of uart/uart_protocol.c in two parts: it writes its frame through the static
-- pointer Respdata, which a call by another task moves.
use multi_port_convertor.Base.{
  ℕ, suc, ◌≢◌, take, take-append, length-append, length-drop, drop, ◌%◌, ◌+◌, ◌≤◌, ◌≡◌, refl, ap,
  ◌∙◌, List, [], ◌∷◌, ◌++◌, arith, Outcome, done, ◌>>=◌, ◌==◌, Bool-cases, inl, inr, if◌then◌else◌,
  u8, u32, length, read, copy, put,
}
use multi_port_convertor.Tool.FreeList
use multi_port_convertor.Uart.Frame.{CmdFormat, covered, check_sum_cal}
use multi_port_convertor.Uart.State.{Uart, update}
use multi_port_convertor.Uart.Frame.Checksum.{sum}
use multi_port_convertor.Uart.Notify.Frames.{
  queued, copied_content, header_sum, put_check, uart_protocol_dispose-queued,
}
use multi_port_convertor.Uart.Notify.{SendInfo, header_written, uart_protocol_dispose}

-- Up to the header. The result is the buffer, to which Respdata points then.
unfoldable pub begin_dispose : SendInfo → Uart → Outcome (ℕ × Uart)
begin_dispose info u = do
  (b, free) ← FreeList.produce u.free
  let s = u.formats b
  done (
    b,
    record u {
      free = free;
      formats = update u.formats b (record s { cmd = header_written info u.uart_send_sn s.cmd });
      uart_send_sn = u8 (u.uart_send_sn + 1);
    },
  )

-- Behind the header, with the buffer `b` in the local variable sendpdata.
unfoldable pub finish_dispose : (b respdata : ℕ) → SendInfo → Uart → Outcome Uart
finish_dispose b respdata info u = do
  let cmd = (u.formats respdata).cmd
  let copied = (do src ← read info.content info.len; copy cmd.payload 0 src)
  payload ← if info.len == 0 then done cmd.payload else copied
  check ← check_sum_cal (covered (record cmd { payload = payload })) (u32 (info.len + 4))
  payload' ← put payload info.len check
  let written =
      update u.formats respdata
        (record (u.formats respdata) { cmd = record cmd { payload = payload' } })
  done (record u {
    sends = u.sends ++ (b ∷ []);
    formats =
        update written b
          (record (written b) { poll = record ((written b).poll) { type = info.poll_type } });
  })

-- A call by one task, and a whole call by another between its two parts.
unfoldable pub interrupted : (outer inner : SendInfo) → Uart → Outcome Uart
interrupted outer inner u = do
  (b, u1) ← begin_dispose outer u
  (c, u2) ← begin_dispose inner u1
  u3 ← finish_dispose c c inner u2
  finish_dispose b c outer u3

-- The frame with its content and its check sum.
abbrev filled : SendInfo → List ℕ → CmdFormat → CmdFormat
filled info content cmd = record cmd {
  payload =
      content
      ++ ((cmd.sn + (cmd.pdt_type + (cmd.cmd_id + sum content))) % 256
          ∷ drop (suc (length content)) cmd.payload);
}

-- What is asked of a call: at most 128 bytes of data.
pub record IsCall (info : SendInfo) (content : List ℕ) : Type 0 where
  pub size : info.len ≡ length content
  pub small : length content ≤ 128
  pub has_content : read info.content info.len ≡ done content

abbrev begun : SendInfo → ℕ → List ℕ → Uart → Uart
begun info b free u = record u {
  free = free;
  formats =
      update u.formats b
        (record (u.formats b) { cmd = header_written info u.uart_send_sn (u.formats b).cmd });
  uart_send_sn = u8 (u.uart_send_sn + 1);
}

abbrev finished : (b respdata : ℕ) → SendInfo → List ℕ → Uart → Uart
finished b respdata info content u =
    let written =
      update u.formats respdata
        (record (u.formats respdata) { cmd = filled info content (u.formats respdata).cmd }) in
    record u {
      sends = u.sends ++ (b ∷ []);
      formats =
          update written b
            (record (written b) { poll = record ((written b).poll) { type = info.poll_type } });
    }

begin_dispose-begun :
    (info : SendInfo) (u : Uart) (b : ℕ) (free : List ℕ)
    → u.free ≡ b ∷ free
    → begin_dispose info u ≡ done (b, begun info b free u)
unfolding begin_dispose
begin_dispose-begun info u b free e = rw e refl

finish_dispose-finished :
    (b respdata : ℕ) (info : SendInfo) (content : List ℕ) (u : Uart)
    → IsCall info content
    → (u.formats respdata).cmd.sta_param ≡ 0
    → length (u.formats respdata).cmd.payload ≡ 129
    → finish_dispose b respdata info u ≡ done (finished b respdata info content u)
unfolding finish_dispose
finish_dispose-finished b respdata info content u c z room =
    let cmd = (u.formats respdata).cmd in
    let r : read info.content (length content) ≡ done content = rw c.size at c.has_content in
    let w : (length content + 4) % 4294967296 ≡ length content + 4 = omega (arith, c.small) in
    rw
      (
        c.size,
        r,
        copied_content content cmd.payload (omega (arith, c.small)),
        w,
        z,
        header_sum cmd.sn cmd.pdt_type cmd.cmd_id content cmd.payload c.small room,
        put_check content cmd.payload _ (omega (arith, c.small)),
      )
      refl

-- The same state, with each frame the same.
pub record IsAlike (v w : Uart) : Type 0 where
  pub free : v.free ≡ w.free
  pub sends : v.sends ≡ w.sends
  pub mailbox : v.mailbox ≡ w.mailbox
  pub sn : v.uart_send_sn ≡ w.uart_send_sn
  pub formats : (c : ℕ) → v.formats c ≡ w.formats c

pub begin_dispose-finish_dispose :
    (info : SendInfo) (content : List ℕ) (u : Uart) (b : ℕ) (free : List ℕ)
    → IsCall info content
    → u.free ≡ b ∷ free
    → length (u.formats b).cmd.payload ≡ 129
    → (v : Uart) × (w : Uart) × (uart_protocol_dispose info u ≡ done v)
      × ((begin_dispose info u >>= λ r. finish_dispose r.0 r.0 info r.1) ≡ done w)
      × IsAlike v w
begin_dispose-finish_dispose info content u b free c e room =
    let u1 = begun info b free u in
    let at : (u1.formats b).cmd ≡ header_written info u.uart_send_sn (u.formats b).cmd =
      ground arith in
    (
      queued info u b free content (u.formats b).cmd.payload,
      finished b b info content u1,
      uart_protocol_dispose-queued info u b free content (u.formats b).cmd.payload c.size c.small
          room e refl c.has_content,
      rw (begin_dispose-begun info u b free e) (
          finish_dispose-finished b b info content u1 c (ap (λ k. k.sta_param) at)
            (ap (λ k. length k.payload) at ∙ room)),
      record {
        free = refl;
        sends = refl;
        mailbox = refl;
        sn = refl;
        formats = λ d. elim (Bool-cases (d == b)) [
          | inl y ↦ ground (arith, c.size, c.small)
          | inr n ↦ ground arith
        ];
      },
    )

-- What an interrupted call leaves.
pub record IsMixed (outer inner : SendInfo) (x : List ℕ) (b c : ℕ) (u v : Uart) : Type 0 where
  pub sends : v.sends ≡ (u.sends ++ (c ∷ [])) ++ (b ∷ [])
  pub outer_id : (v.formats b).cmd.cmd_id ≡ outer.cmd_id
  pub left_out : (v.formats b).cmd.payload ≡ (u.formats b).cmd.payload
  pub inner_id : (v.formats c).cmd.cmd_id ≡ inner.cmd_id
  pub moved : take (length x) (v.formats c).cmd.payload ≡ x

length-filled :
    (info : SendInfo) (content : List ℕ) (cmd : CmdFormat)
    → length content ≤ 128
    → length cmd.payload ≡ 129
    → length (filled info content cmd).payload ≡ 129
length-filled info content cmd small room =
    let s = (cmd.sn + (cmd.pdt_type + (cmd.cmd_id + sum content))) % 256 in
    omega (
      arith,
      length-append content (s ∷ drop (suc (length content)) cmd.payload),
      length-drop (suc (length content)) cmd.payload,
    )

module _ (outer inner : SendInfo) (x y : List ℕ) (u : Uart) (b c : ℕ) (free : List ℕ)
    (call : IsCall outer x) (other : IsCall inner y) where
  -- With two free buffers, the second of 129 bytes, and at most 128 bytes of data for each call:
  -- where a call of `uart_protocol_dispose` comes between the two parts of another, both frames are
  -- queued, but the data of the interrupted call is at the front of the frame of the other, and its
  -- own frame has the bytes that the buffer held before.
  pub interrupted-IsMixed :
      u.free ≡ b ∷ c ∷ free
      → b ≢ c
      → length (u.formats c).cmd.payload ≡ 129
      → (v : Uart) × (interrupted outer inner u ≡ done v) × IsMixed outer inner x b c u v
  unfolding interrupted
  interrupted-IsMixed e n room =
      let u1 = begun outer b (c ∷ free) u in
      let u2 = begun inner c free u1 in
      let u3 = finished c c inner y u2 in
      let v = finished b c outer x u3 in
      let was : (u1.formats c).cmd ≡ (u.formats c).cmd = ground arith in
      let begun_at : (u2.formats c).cmd ≡ header_written inner u1.uart_send_sn (u1.formats c).cmd =
        ground arith in
      let room2 : length (u2.formats c).cmd.payload ≡ 129 =
        ap (λ k. length k.payload) begun_at ∙ ap (λ k. length k.payload) was ∙ room in
      let at : (u3.formats c).cmd ≡ filled inner y (u2.formats c).cmd = ground arith in
      let room3 : length (u3.formats c).cmd.payload ≡ 129 =
        ap (λ k. length k.payload) at
        ∙ length-filled inner y (u2.formats c).cmd other.small room2 in
      let last : (v.formats c).cmd ≡ filled outer x (u3.formats c).cmd = ground arith in
      (
        v,
        rw
            (
              begin_dispose-begun outer u b (c ∷ free) e,
              begin_dispose-begun inner u1 c free refl,
              finish_dispose-finished c c inner y u2 other (ap (λ k. k.sta_param) begun_at) room2,
            )
            (finish_dispose-finished b c outer x u3 call
              (ap (λ k. k.sta_param) at ∙ ap (λ k. k.sta_param) begun_at) room3),
        record {
          sends = refl;
          outer_id = ground arith;
          left_out = ground arith;
          inner_id = ap (λ k. k.cmd_id) last ∙ ap (λ k. k.cmd_id) at ∙ ap (λ k. k.cmd_id) begun_at;
          moved = ap (λ k. take (length x) k.payload) last ∙ take-append x _;
        },
      )
