-- ===== src/Uart/Tasks/Line.antt =====
-- What the serial port gets over any run of the tasks, and where the buffers are in between.
use multi_port_convertor.Base.{
  ℕ, ◌+◌, ◌≡◌, sym, ap, ◌∙◌, true, List, [], ◌∷◌, arith, Option, none, some, done, Safe-done, All,
  ==_refl, length, take, length-take,
}
use mathlib.Core.Path.{subst}
use multi_port_convertor.Tool.Mailbox.{Message, Mailbox, mailbox_pend}
use multi_port_convertor.Uart.Frame.{CmdFormat, frame_len, bytes_of, procotol_check}
use multi_port_convertor.Uart.State.{Uart}
use multi_port_convertor.Uart.Send.{after_send, uart_send}
use multi_port_convertor.Uart.Send.Wire.{send_loop-whole}
use multi_port_convertor.Uart.Tasks.{
  System, Step, Timely, Reach, notify, receive, poll_round, pend, send, here, next, AllSent,
}
use multi_port_convertor.Uart.Tasks.Effects.{uart_protocol_dispose-Queues}
use multi_port_convertor.Uart.Tasks.Receipts.{Receipt, ignored, replied, marked, parse-Receipt}
use multi_port_convertor.Uart.Tasks.Owned.{
  Owned, queue-Owned, Queuing-Owned, Queuing-AllSent, mark-Owned, pass-Owned, pend-Owned,
  send-Owned, started-Owned,
}
use multi_port_convertor.Uart.Tasks.Contents.{
  Content, queue-Content, Queuing-Content, mark-Content, pass-Content, pend-Content, send-Content,
  started-Content,
}

-- The bytes of a frame that begins with the start byte and that the protocol's check accepts: those that its length field counts, and
-- the four before and behind them.
abbrev pub IsFrame : List ℕ → Type 0
IsFrame bytes =
    (f : CmdFormat) × (f.head ≡ 0xD0)
    × (procotol_check f ≡ done true)
    × (bytes ≡ take (frame_len f + 4) (bytes_of f))
    × (length bytes ≡ frame_len f + 4)

pub record Inv (s : System) : Type 0 where
  pub owned : Owned s.uart s.hand
  pub content : Content s.uart s.hand
  pub frames : All IsFrame s.line

-- What `uart_send` returns, where the port takes the whole message.
uart_send-whole :
    (u : Uart) (m : Message) (sent : List ℕ) (v : Uart)
    → Content u (some m)
    → uart_send m (m.data_len ∷ []) u ≡ done (sent, v)
    → IsFrame sent × (v ≡ after_send m.p u)
unfolding uart_send
uart_send-whole u m sent v c e =
    let f = (u.formats m.p).cmd in
    let (ok, short, head) = c.valid m.p (ground (arith, ==_refl m.p)) in
    let room = c.room m.p in
    let l : m.data_len ≡ frame_len f + 4 = c.hand_fits in
    let w = send_loop-whole (bytes_of f) [] m.data_len (omega arith) (omega arith) in
    let k : sent ≡ take m.data_len (bytes_of f) = ground (arith, w) in
    (
      (
        f,
        head,
        ok,
        k ∙ ap (λ n. take n (bytes_of f)) l,
        ap length k ∙ omega (arith, length-take m.data_len (bytes_of f)),
      ),
      ground (arith, w),
    )

mailbox_pend-eq :
    (q : Mailbox) {m : Message} {q' : Mailbox} → mailbox_pend q ≡ some (m, q') → q ≡ m ∷ q'
mailbox_pend-eq [] e = cc
mailbox_pend-eq (x ∷ q) e = ground arith

Receipt-Inv :
    (u v : Uart) (hand : Option Message) (sn : ℕ)
    → Owned u hand
    → Content u hand
    → AllSent sn u hand
    → Receipt sn u v
    → Owned v hand × Content v hand
Receipt-Inv u v hand sn o c a (ignored e) =
    (subst (λ w. Owned w hand) (sym e) o, subst (λ w. Content w hand) (sym e) c)
Receipt-Inv u v hand sn o c a (replied q) =
    (queue-Owned u hand o 0 (omega arith) q, queue-Content u hand o c 0 q)
Receipt-Inv u v hand sn o c a (marked {w} q e) =
    let o' = Queuing-Owned u hand o q in
    let c' = Queuing-Content u hand o c q in
    (
      subst (λ w. Owned w hand) (sym e) (mark-Owned w hand o' sn (Queuing-AllSent sn u hand a q)),
      subst (λ w. Content w hand) (sym e) (mark-Content sn w hand c'),
    )

-- Every step keeps the invariant, if it is in time.
pub Step-Inv : {s t : System} (st : Step s t) → Timely st → Inv s → Inv t
Step-Inv {s} (notify info {v} p e) tm i =
    let q = Safe-done _ _ (uart_protocol_dispose-Queues info s.uart i.content.room) e in
    record {
      owned = queue-Owned s.uart s.hand i.owned info.poll_type p q;
      content = queue-Content s.uart s.hand i.owned i.content info.poll_type q;
      frames = i.frames;
    }
Step-Inv {s} (receive env cmd {v} e) tm i =
    let r = Safe-done _ _ (parse-Receipt env tm.0 cmd s.uart i.content.room) e in
    let (o, c) = Receipt-Inv s.uart v s.hand cmd.sn i.owned i.content tm.1 r in
    record { owned = o; content = c; frames = i.frames }
Step-Inv {s} poll_round tm i = record {
  owned = pass-Owned s.uart s.hand i.owned tm;
  content = pass-Content s.uart s.hand i.owned i.content;
  frames = i.frames;
}
Step-Inv {s} (pend {m} {q} n e) tm i =
    let x = mailbox_pend-eq s.uart.mailbox e in
    record {
      owned = pend-Owned s.uart m q x (subst (Owned s.uart) n i.owned);
      content = pend-Content s.uart m q x (subst (Content s.uart) n i.content);
      frames = i.frames;
    }
Step-Inv {s} (send m {sent} {v} n e) tm i =
    let c = subst (Content s.uart) n i.content in
    let (f, z) = uart_send-whole s.uart m sent v c e in
    record {
      owned =
          subst (λ w. Owned w none) (sym z) (send-Owned s.uart m (subst (Owned s.uart) n i.owned));
      content = subst (λ w. Content w none) (sym z) (send-Content s.uart m c);
      frames = (f, i.frames);
    }

pub Reach-Inv : {s : System} → Reach s → Inv s
Reach-Inv (here memory id c) = record {
  owned = started-Owned memory id c;
  content = started-Content memory id c;
  frames = tt;
}
Reach-Inv (next r st tm) = Step-Inv st tm (Reach-Inv r)
