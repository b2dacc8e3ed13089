-- ===== src/Uart/Tasks/Owned.antt =====
-- Every step of the tasks keeps each buffer in one place.
use multi_port_convertor.Base.{
  ℕ, zero, suc, ◌+◌, ◌≤◌, ◌<◌, ◌≡◌, refl, sym, ap, ◌⊎◌, inl, inr, true, List, [], ◌∷◌, arith,
  Option, none, some, dec_lt, ltb, leb, ◌&&◌, ◌==◌, if◌then◌else◌, has, has-append, count,
  count-append, count-has, Distinct, Distinct-count, Bool-cases, eq_of_==,
}
use multi_port_convertor.Tool.Mailbox.{Message, Mailbox}
use multi_port_convertor.Uart.State.{Poll, SendFormat, Uart}
use multi_port_convertor.Uart.Parse.{acknowledge}
use multi_port_convertor.Uart.Parse.Acks.{flagged, acknowledged}
use multi_port_convertor.Uart.Poll.{uart_poll_pass}
use multi_port_convertor.Uart.Poll.Pass.{released_by, uart_poll_pass-Passed}
use multi_port_convertor.Uart.Send.{after_send}
use multi_port_convertor.Uart.Tasks.{
  pending, waiting, AllSent, NoneLate, buffers, from_to, IsCleared, started,
}
use multi_port_convertor.Uart.Tasks.Counts.{count-kept, count-released, pending-posted}
use multi_port_convertor.Uart.Tasks.Places.{
  Place, pass-Place, queue-Place, mark-Place, sent-Place, outside, is_free, to_answer, to_notify,
  notified, answered, answering,
}
use multi_port_convertor.Uart.Tasks.Effects.{Queues}
use multi_port_convertor.Uart.Tasks.Receipts.{Queuing, nothing, one_more}

-- Each buffer is in one of the places.
abbrev pub Owned : Uart → Option Message → Type 0
Owned u hand =
    (b : ℕ) → Place b (count b u.free) (count b u.sends) (waiting b u hand) (u.formats b).poll

Place-one : {b cf cs pd : ℕ} {p : Poll} → Place b cf cs pd p → cf + cs ≤ 1
Place-one (outside l f s q) = omega arith
Place-one (is_free l f s q z) = omega arith
Place-one (to_answer l f s q y) = omega arith
Place-one (to_notify l f s q y g n) = omega arith
Place-one (notified l f s y g n m) = omega arith
Place-one (answered l f s q y g n m) = omega arith
Place-one (answering l f s q g) = omega arith

-- The same place, in other words.
move :
    {b cf cs pd cf' cs' pd' : ℕ} {p p' : Poll}
    → cf ≡ cf'
    → cs ≡ cs'
    → pd ≡ pd'
    → p ≡ p'
    → Place b cf cs pd p
    → Place b cf' cs' pd' p'
move {b} e f g h pl = rw (sym e, sym f, sym g, sym h) pl

module _ (u : Uart) (hand : Option Message) (o : Owned u hand) where
  pub Owned-Distinct : Distinct u.sends
  Owned-Distinct = Distinct-count u.sends (λ b. omega (arith, Place-one (o b)))

  pub queue-Owned : {v : Uart} (t : ℕ) → t ≤ 1 → Queues t u v → Owned v hand
  queue-Owned {v} t k q b =
      let a = q.first in
      let e : count b u.free ≡ (if a == b then 1 else 0) + count b q.rest =
        ap (count b) q.was_free in
      elim (Bool-cases (a == b)) [
        | inl y ↦
            move (ground (arith, ap (count b) q.free))
              (ground (arith, ap (count b) q.sends, count-append b u.sends (a ∷ [])))
              (ground (arith, q.mailbox)) (ground (arith, q.formats, eq_of_== a b y))
              (queue-Place t k (o b) (ground arith))
        | inr n ↦
            move (ground (arith, ap (count b) q.free))
              (ground (arith, ap (count b) q.sends, count-append b u.sends (a ∷ [])))
              (ground (arith, q.mailbox)) (ground (arith, q.formats)) (o b)
      ]

pub Queuing-Owned :
    (u : Uart) (hand : Option Message) → Owned u hand → {v : Uart} → Queuing u v → Owned v hand
Queuing-Owned u hand o nothing = o
Queuing-Owned u hand o (one_more {v} r q) =
    queue-Owned v hand (Queuing-Owned u hand o r) 0 (omega arith) q

-- Answers that are queued are no notifications that could be marked too early.
queue-AllSent :
    (sn : ℕ) (u v : Uart) (hand : Option Message)
    → Queues 0 u v
    → AllSent sn u hand
    → AllSent sn v hand
queue-AllSent sn u v hand q h b m e t =
    let a = q.first in
    elim (Bool-cases (b == a)) [
      | inl y ↦ absurd (ground (arith, q.formats))
      | inr n ↦
          let x =
            h b (ground (arith, ap (has b) q.sends, has-append b u.sends (a ∷ [])))
              (ground (arith, q.formats)) (ground (arith, q.formats)) in
          (ground (arith, q.formats), ground (arith, q.mailbox))
    ]

pub Queuing-AllSent :
    (sn : ℕ) (u : Uart) (hand : Option Message)
    → AllSent sn u hand
    → {v : Uart} → Queuing u v
    → AllSent sn v hand
Queuing-AllSent sn u hand h nothing = h
Queuing-AllSent sn u hand h (one_more {v} {w} r q) =
    queue-AllSent sn v w hand q (Queuing-AllSent sn u hand h r)

-- A buffer is marked only if it is in the list and has the sequence number.
pub acknowledge-at :
    (sn : ℕ) (bs : List ℕ) (f : ℕ → SendFormat) (c : ℕ)
    → (acknowledge sn bs f c ≡ f c)
      ⊎ ((has c bs ≡ true)
          × ((sn == (f c).cmd.sn) ≡ true)
          × (acknowledge sn bs f c ≡ flagged (f c)))
unfolding acknowledge
acknowledge-at sn [] f c = inl refl
acknowledge-at sn (b ∷ bs) f c = elim (Bool-cases (sn == (f b).cmd.sn)) [
  | inl y ↦ elim (Bool-cases (c == b)) [
    | inl e ↦ inr (ground arith, ground (arith, eq_of_== c b e), ground (arith, eq_of_== c b e))
    | inr n ↦ inl (ground arith)
  ]
  | inr n ↦ elim (acknowledge-at sn bs f c) [
    | inl same ↦ inl (ground arith)
    | inr (m, e, z) ↦ inr (ground arith, e, ground arith)
  ]
]

module _ (u : Uart) (hand : Option Message) (o : Owned u hand) where
  pub mark-Owned : (sn : ℕ) → AllSent sn u hand → Owned (acknowledged sn u) hand
  mark-Owned sn h b = elim (acknowledge-at sn u.sends u.formats b) [
    | inl same ↦ move refl refl refl (ap (λ s. s.poll) (sym same)) (o b)
    | inr (m, e, z) ↦
        move refl refl refl (ap (λ s. s.poll) (sym z))
          (mark-Place (o b) (ground (arith, count-has b u.sends)) (h b m e))
  ]

  pub pass-Owned : NoneLate u hand → Owned (uart_poll_pass u) hand
  pass-Owned late b =
      let w = uart_poll_pass-Passed u (Owned-Distinct u hand o) in
      let s = count-has b u.sends in
      move
        (ground (
          arith,
          ap (count b) w.free,
          count-append b u.free (released_by u u.sends),
          count-released u b u.sends,
        ))
        (ground (arith, ap (count b) w.sends, count-kept u b u.sends))
        (ground (arith, ap (pending b) w.mail, pending-posted u b u.sends u.mailbox)) refl
        (pass-Place {p' = ((uart_poll_pass u).formats b).poll} (o b)
          (λ c r. late b (ground arith) r) (λ c. ap (λ f. f.poll) (w.on_entry b (ground arith)))
          (λ c. ap (λ f. f.poll) (w.elsewhere b (ground arith))))

pub pend-Owned :
    (u : Uart) (m : Message) (q : Mailbox)
    → u.mailbox ≡ m ∷ q
    → Owned u none
    → Owned (record u { mailbox = q }) (some m)
pend-Owned u m q e o b = move refl refl (ground (arith, ap (pending b) e)) refl (o b)

pub send-Owned : (u : Uart) (m : Message) → Owned u (some m) → Owned (after_send m.p u) none
send-Owned u m o b = elim (Bool-cases (b == m.p)) [
  | inl y ↦
      let e = eq_of_== b m.p y in
      move refl (ground arith) (ground arith) refl (
        sent-Place {pd = pending b u.mailbox} {p' = ((after_send m.p u).formats b).poll}
          (move refl refl (ground arith) refl (o b))
          (ground (arith, count-append b u.free (m.p ∷ []))) (ground arith))
  | inr n ↦
      move (ground (arith, count-append b u.free (m.p ∷ []))) (ground arith) (ground arith)
        (ground arith) (o b)
]

count-from_to : (b n i : ℕ) → count b (from_to i n) ≡ (if leb i b && ltb b (i + n) then 1 else 0)
count-from_to b zero i = ground arith
count-from_to b (suc n) i = ground (arith, count-from_to b n (suc i))

from_to_inside : (b n : ℕ) → b < n → count b (from_to 0 n) ≡ 1
from_to_inside b n h = ground (arith, count-from_to b n 0)

from_to_outside : (b n : ℕ) → n ≤ b → count b (from_to 0 n) ≡ 0
from_to_outside b n h = ground (arith, count-from_to b n 0)

pub started-Owned :
    (memory : ℕ → SendFormat) (id : ℕ) → IsCleared memory → Owned (started memory id) none
started-Owned memory id c b = elim (dec_lt b buffers) [
  | yes l ↦ is_free l (from_to_inside b buffers l) refl refl (c b).0
  | no g ↦ outside (omega arith) (from_to_outside b buffers (omega arith)) refl refl
]

-- Nothing waits for a free buffer.
pub free-unused :
    (u : Uart) (hand : Option Message)
    → Owned u hand
    → (b : ℕ) → 1 ≤ count b u.free
    → waiting b u hand ≡ 0
free-unused u hand o b h = unused (o b) h
  where
    unused : {b cf cs pd : ℕ} {p : Poll} → Place b cf cs pd p → 1 ≤ cf → pd ≡ 0
    unused (is_free l f s q z) c = q
    unused (outside l f s q) c = q
    unused (to_answer l f s q y) c = q
    unused (to_notify l f s q y g n) c = q
    unused (notified l f s y g n m) c = absurd (omega arith)
    unused (answered l f s q y g n m) c = q
    unused (answering l f s q g) c = absurd (omega arith)
