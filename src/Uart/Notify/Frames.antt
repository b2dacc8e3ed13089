-- ===== src/Uart/Notify/Frames.antt =====
-- What `uart_protocol_dispose` of uart/uart_protocol.c puts into the send list.
use multi_port_convertor.Base.{
  ℕ, suc, ◌+◌, ◌-◌, ◌/◌, ◌%◌, ◌≤◌, ◌<◌, ◌≡◌, refl, ap, ◌∙◌, true, false, ◌≢◌, get_or, set, List, [],
  ◌∷◌, ◌++◌, arith, done, ◌==◌, if◌then◌else◌, copy, put, read, length, length-append, take, drop,
  set-behind, take-append, u8, copy-done, put-done, get_or-append_length, length-drop,
}
use mathlib.Core.Path.{subst, sym}
use multi_port_convertor.Uart.Frame.{CmdFormat, frame_len, check_sum_cal, procotol_check}
use multi_port_convertor.Uart.Frame.Checksum.{sum, check_sum_cal-sum, procotol_check_lem}
use multi_port_convertor.Uart.State.{Uart, update}
use multi_port_convertor.Uart.Notify.{SendInfo, uart_protocol_dispose}

-- The frame that stands for the bytes `content`, in a buffer that held `old`.
abbrev pub framed : SendInfo → ℕ → List ℕ → List ℕ → CmdFormat
framed info sn content old = record {
  head = 0xD0;
  length_msb = (length content + 4) / 256 % 256;
  length_lsb = (length content + 4) % 256;
  sta_param = 0;
  sn = sn;
  pdt_type = info.pdt_type;
  cmd_id = info.cmd_id;
  payload =
      content
      ++ ((sn + (info.pdt_type + (info.cmd_id + sum content))) % 256
          ∷ drop (suc (length content)) old);
}

-- The state behind the call.
abbrev pub queued : SendInfo → Uart → ℕ → List ℕ → List ℕ → List ℕ → Uart
queued info u b rest content old = record u {
  free = rest;
  sends = u.sends ++ (b ∷ []);
  formats = update u.formats b (record {
    poll = record (u.formats b).poll { type = info.poll_type };
    cmd = framed info u.uart_send_sn content old;
  });
  uart_send_sn = u8 (u.uart_send_sn + 1);
}

pub take-content :
    (a b c d : ℕ) (content old : List ℕ)
    → take (length content + 4) (a ∷ b ∷ c ∷ d ∷ (content ++ old)) ≡ a ∷ b ∷ c ∷ d ∷ content
take-content a b c d content old =
    let e : length content + 4 ≡ suc (suc (suc (suc (length content)))) = omega arith in
    rw (e, take-append content old)

-- `memcpy`, or no copy where there is nothing to copy.
pub copied_content :
    (content old : List ℕ)
    → length content ≤ length old
    → (if length content == 0 then done old else copy old 0 content)
      ≡ done (content ++ drop (length content) old)
copied_content [] old h = refl
copied_content (x ∷ content) old h = ground (arith, copy-done old 0 (x ∷ content))

-- The sum over the header and the content.
pub header_sum :
    (sn pdt id : ℕ) (content old : List ℕ)
    → length content ≤ 128
    → length old ≡ 129
    → check_sum_cal
        (0 ∷ sn ∷ pdt ∷ id ∷ (content ++ drop (length content) old))
        (length content + 4)
      ≡ done ((sn + (pdt + (id + sum content))) % 256)
header_sum sn pdt id content old small room =
    let old' = drop (length content) old in
    check_sum_cal-sum (0 ∷ sn ∷ pdt ∷ id ∷ (content ++ old')) (length content + 4)
      (omega (arith, length-append content old', length-drop (length content) old)) (omega arith)
    ∙ rw (take-content 0 sn pdt id content old') (ap done (omega arith))

-- The sum is stored behind the content.
pub put_check :
    (content old : List ℕ) (v : ℕ)
    → length content < length old
    → put (content ++ drop (length content) old) (length content) v
      ≡ done (content ++ (v ∷ drop (suc (length content)) old))
put_check content old v h =
    let old' = drop (length content) old in
    put-done (content ++ old') (length content) v
      (omega (arith, length-append content old', length-drop (length content) old))
    ∙ ap done (set-behind content old v h)

module _ (info : SendInfo) (u : Uart) (b : ℕ) (rest content old : List ℕ)
    (size : info.len ≡ length content) (small : length content ≤ 128)
    (room : length old ≡ 129) where
  -- With a free buffer and at most 128 bytes of data, `uart_protocol_dispose` queues their frame in
  -- the buffer that has been free longest, and counts the sequence number on modulo 256.
  pub uart_protocol_dispose-queued :
      u.free ≡ b ∷ rest
      → (u.formats b).cmd.payload ≡ old
      → read info.content info.len ≡ done content
      → uart_protocol_dispose info u ≡ done (queued info u b rest content old)
  unfolding uart_protocol_dispose
  uart_protocol_dispose-queued f p r =
      let r' : read info.content (length content) ≡ done content = rw size at r in
      let w : (length content + 4) % 4294967296 ≡ length content + 4 = omega arith in
      rw (
        size,
        f,
        p,
        r',
        copied_content content old (omega arith),
        w,
        header_sum u.uart_send_sn info.pdt_type info.cmd_id content old small room,
        put_check content old _ (omega arith),
      )

set_at : (xs : List ℕ) (a b : ℕ) (ys : List ℕ) → set (xs ++ (a ∷ ys)) (length xs) b ≡ xs ++ (b ∷ ys)
set_at [] a b ys = refl
set_at (x ∷ xs) a b ys = ap (λ zs. x ∷ zs) (set_at xs a b ys)

-- The check compares the byte behind the data with the sum.
check_behind :
    (info : SendInfo) (sn c : ℕ) (content old rest : List ℕ)
    → length content ≤ 128
    → procotol_check (record (framed info sn content old) { payload = content ++ (c ∷ rest) })
      ≡ done (c == ((sn + (info.pdt_type + (info.cmd_id + sum content))) % 256))
check_behind info sn c content old rest h =
    let f = record (framed info sn content old) { payload = content ++ (c ∷ rest) } in
    let e : frame_len f ≡ length content + 4 = omega arith in
    let k : length content + 4 - 4 ≡ length content = omega arith in
    procotol_check_lem f (omega arith) (omega (arith, length-append content (c ∷ rest)))
      (omega arith)
    ∙ rw
        (
          e,
          k,
          get_or-append_length content rest c 0,
          take-content 0 sn info.pdt_type info.cmd_id content (c ∷ rest),
        )
        (ap (λ k. done (c == (k % 256))) (omega arith))

-- The frame of at most 128 bytes passes the protocol's own check, its length field counts these
-- bytes and four more, and its data begins with them.
pub procotol_check-framed :
    (info : SendInfo) (sn : ℕ) (content old : List ℕ)
    → length content ≤ 128
    → (procotol_check (framed info sn content old) ≡ done true)
      × (frame_len (framed info sn content old) ≡ length content + 4)
      × (take (length content) (framed info sn content old).payload ≡ content)
procotol_check-framed info sn content old h =
    let c = (sn + (info.pdt_type + (info.cmd_id + sum content))) % 256 in
    let old' = drop (suc (length content)) old in
    (
      check_behind info sn c content old old' h ∙ ap done (ground arith),
      omega arith,
      take-append content (c ∷ old'),
    )

-- A frame with its data, which the check takes, and takes with no other byte as the check sum.
pub record IsChecked (content : List ℕ) (f : CmdFormat) : Type 0 where
  pub head : f.head ≡ 0xD0
  pub size : frame_len f ≡ length content + 4
  pub carried : take (length content) f.payload ≡ content
  pub passes : procotol_check f ≡ done true
  pub only :
      (c : ℕ)
      → c ≢ get_or f.payload (length content) 0
      → procotol_check (record f { payload = set f.payload (length content) c }) ≡ done false

framed-IsChecked :
    (info : SendInfo) (sn : ℕ) (content old : List ℕ)
    → length content ≤ 128
    → IsChecked content (framed info sn content old)
framed-IsChecked info sn content old h =
    let (passes, size, carried) = procotol_check-framed info sn content old h in
    let s = (sn + (info.pdt_type + (info.cmd_id + sum content))) % 256 in
    let rest = drop (suc (length content)) old in
    record {
      head = refl;
      size = size;
      carried = carried;
      passes = passes;
      only = λ c n. rw (set_at content s c rest) (
          check_behind info sn c content old rest h
          ∙ ap done (ground (arith, get_or-append_length content rest s 0)));
    }

module _ (info : SendInfo) (u : Uart) (b : ℕ) (rest content : List ℕ) where
  -- With a free buffer of 129 bytes and at most 128 bytes of data, which the content that is given
  -- has, `uart_protocol_dispose` takes the buffer that has been free longest and queues it behind
  -- the others, with the sequence number, which it counts on modulo 256, and the command. Its frame
  -- has the start byte of a response, a length field that counts the data and four bytes more, and
  -- the data at the front; the protocol's check accepts it, and rejects it with any other number in
  -- the place of its check sum.
  pub uart_protocol_dispose-IsChecked :
      u.free ≡ b ∷ rest
      → length (u.formats b).cmd.payload ≡ 129
      → info.len ≡ length content
      → length content ≤ 128
      → read info.content info.len ≡ done content
      → (v : Uart) × (uart_protocol_dispose info u ≡ done v)
        × (v.free ≡ rest)
        × (v.sends ≡ u.sends ++ (b ∷ []))
        × IsChecked content (v.formats b).cmd
        × ((v.formats b).cmd.sn ≡ u.uart_send_sn)
        × ((v.formats b).cmd.cmd_id ≡ info.cmd_id)
        × (v.uart_send_sn ≡ u8 (u.uart_send_sn + 1))
  uart_protocol_dispose-IsChecked f room size small r =
      let old = (u.formats b).cmd.payload in
      let v = queued info u b rest content old in
      let at : (v.formats b).cmd ≡ framed info u.uart_send_sn content old = ground arith in
      (
        v,
        uart_protocol_dispose-queued info u b rest content old size small room f refl r,
        refl,
        refl,
        subst (IsChecked content) (sym at) (framed-IsChecked info u.uart_send_sn content old small),
        ap (λ k. k.sn) at,
        ap (λ k. k.cmd_id) at,
        refl,
      )
