-- ===== src/Uart/Tasks/Contents.antt =====
-- Every step of the tasks keeps the frames that wait whole, and the messages in step with them.
use multi_port_convertor.Base.{
  ℕ, ◌+◌, ◌≤◌, ◌≡◌, refl, sym, ap, ◌∙◌, inl, inr, true, false, [], ◌∷◌, arith, Option, none, some,
  done, All, ◌==◌, has, count, count-append, Bool-cases, length,
}
use mathlib.Core.Path.{subst}
use multi_port_convertor.Tool.Mailbox.{Message, Mailbox}
use multi_port_convertor.Uart.Frame.{CmdFormat, frame_len, procotol_check}
use multi_port_convertor.Uart.State.{SendFormat, Uart}
use multi_port_convertor.Uart.Parse.Acks.{acknowledged}
use multi_port_convertor.Uart.Poll.{uart_poll_pass}
use multi_port_convertor.Uart.Poll.Pass.{uart_poll_pass-Passed}
use multi_port_convertor.Uart.Send.{after_send}
use multi_port_convertor.Uart.Tasks.{pending, waiting, IsCleared, started}
use multi_port_convertor.Uart.Tasks.Counts.{count-kept, pending-posted}
use multi_port_convertor.Uart.Tasks.Effects.{Queues, Rooms}
use multi_port_convertor.Uart.Tasks.Receipts.{Queuing, nothing, one_more}
use multi_port_convertor.Uart.Tasks.Fits.{
  Fits, HandFits, Fits-away, HandFits-away, Fits-same, HandFits-same, Fits-posted,
}
use multi_port_convertor.Uart.Tasks.Owned.{
  Owned, Owned-Distinct, Queuing-Owned, free-unused, acknowledge-at,
}

-- A frame that the check accepts, that fits into its object and begins with the start byte.
abbrev pub IsSound : CmdFormat → Type 0
IsSound f = (procotol_check f ≡ done true) × (frame_len f ≤ 132) × (f.head ≡ 0xD0)

pub record Content (u : Uart) (hand : Option Message) : Type 0 where
  pub room : Rooms u
  pub valid : (b : ℕ) → 1 ≤ count b u.sends + waiting b u hand → IsSound (u.formats b).cmd
  pub fits : All (Fits u) u.mailbox
  pub hand_fits : HandFits u hand

module _ (u : Uart) (hand : Option Message) (o : Owned u hand) (c : Content u hand) where
  pub queue-Content : {v : Uart} (t : ℕ) → Queues t u v → Content v hand
  queue-Content {v} t q =
      let a = q.first in
      let unused = free-unused u hand o a (ground (arith, ap (count a) q.was_free)) in
      let same : (b : ℕ) → (b == a) ≡ false → (v.formats b).cmd ≡ (u.formats b).cmd =
        λ b n. ground (arith, q.formats) in
      record {
        room = λ b. elim (Bool-cases (b == a)) [
          | inl y ↦ ground (arith, q.formats, q.room)
          | inr n ↦ ground (arith, q.formats, c.room b)
        ];
        valid = λ b p. elim (Bool-cases (b == a)) [
          | inl y ↦ (
            ground (arith, q.formats, q.valid),
            ground (arith, q.formats, q.short),
            ground (arith, q.formats, q.head),
          )
          | inr n ↦
              let h = c.valid b (
                ground (arith, ap (count b) q.sends, count-append b u.sends (a ∷ []), q.mailbox)) in
              rw (same b n) h
        ];
        fits =
            subst (All (Fits v)) (sym q.mailbox)
              (Fits-away a u v same u.mailbox (omega arith) c.fits);
        hand_fits = HandFits-away a u v same hand (omega arith) c.hand_fits;
      }

pub Queuing-Content :
    (u : Uart) (hand : Option Message)
    → Owned u hand
    → Content u hand
    → {v : Uart} → Queuing u v
    → Content v hand
Queuing-Content u hand o c nothing = c
Queuing-Content u hand o c (one_more {v} r q) =
    queue-Content v hand (Queuing-Owned u hand o r) (Queuing-Content u hand o c r) 0 q

-- A mark touches no frame.
mark_same : (sn : ℕ) (u : Uart) (b : ℕ) → ((acknowledged sn u).formats b).cmd ≡ (u.formats b).cmd
mark_same sn u b = elim (acknowledge-at sn u.sends u.formats b) [
  | inl same ↦ ap (λ s. s.cmd) same
  | inr (m, e, z) ↦ ap (λ s. s.cmd) z
]

pub mark-Content :
    (sn : ℕ) (u : Uart) (hand : Option Message) → Content u hand → Content (acknowledged sn u) hand
mark-Content sn u hand c =
    let same = mark_same sn u in
    record {
      room = λ b. ap (λ f. length f.payload) (same b) ∙ c.room b;
      valid = λ b p. rw (same b) (c.valid b p);
      fits = Fits-same u (acknowledged sn u) same u.mailbox c.fits;
      hand_fits = HandFits-same u (acknowledged sn u) same hand c.hand_fits;
    }

pub pass-Content :
    (u : Uart) (hand : Option Message)
    → Owned u hand
    → Content u hand
    → Content (uart_poll_pass u) hand
pass-Content u hand o c =
    let v = uart_poll_pass u in
    let w = uart_poll_pass-Passed u (Owned-Distinct u hand o) in
    let same : (b : ℕ) → (v.formats b).cmd ≡ (u.formats b).cmd = λ b.
      elim (Bool-cases (has b u.sends)) [
        | inl y ↦ ap (λ s. s.cmd) (w.on_entry b y)
        | inr n ↦ ap (λ s. s.cmd) (w.elsewhere b n)
      ] in
    record {
      room = λ b. ap (λ f. length f.payload) (same b) ∙ c.room b;
      valid = λ b p. subst IsSound (sym (same b)) (
          c.valid b (
            ground (
              arith,
              ap (count b) w.sends,
              count-kept u b u.sends,
              ap (pending b) w.mail,
              pending-posted u b u.sends u.mailbox,
            )));
      fits =
          subst (All (Fits v)) (sym w.mail)
            (Fits-same u v same _ (Fits-posted u u.sends u.mailbox c.fits));
      hand_fits = HandFits-same u v same hand c.hand_fits;
    }

pub pend-Content :
    (u : Uart) (m : Message) (q : Mailbox)
    → u.mailbox ≡ m ∷ q
    → Content u none
    → Content (record u { mailbox = q }) (some m)
pend-Content u m q e c =
    let all = subst (All (Fits u)) e c.fits in
    record {
      room = c.room;
      valid = λ b p. c.valid b (ground (arith, ap (pending b) e));
      fits = Fits-same u (record u { mailbox = q }) (λ b. refl) q all.1;
      hand_fits = all.0;
    }

pub send-Content : (u : Uart) (m : Message) → Content u (some m) → Content (after_send m.p u) none
send-Content u m c =
    let v = after_send m.p u in
    let same : (b : ℕ) → (v.formats b).cmd ≡ (u.formats b).cmd = λ b. ground arith in
    record {
      room = λ b. ap (λ f. length f.payload) (same b) ∙ c.room b;
      valid = λ b p. subst IsSound (sym (same b)) (c.valid b (ground arith));
      fits = subst (All (Fits v)) (ground arith) (Fits-same u v same u.mailbox c.fits);
      hand_fits = tt;
    }

pub started-Content :
    (memory : ℕ → SendFormat) (id : ℕ) → IsCleared memory → Content (started memory id) none
started-Content memory id c = record {
  room = λ b. (c b).1;
  valid = λ b p. absurd (omega arith);
  fits = tt;
  hand_fits = tt;
}
