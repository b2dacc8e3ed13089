-- ===== src/Uart/Tasks/Fits.antt =====
-- The messages of the queue ask for as many bytes as their frames have.
use multi_port_convertor.Base.{
  ℕ, ◌≡◌, refl, inl, inr, false, List, [], ◌∷◌, arith, Option, none, some, All, ltb, ◌==◌,
  Bool-cases,
}
use multi_port_convertor.Tool.Mailbox.{Message, Mailbox, enqueue}
use multi_port_convertor.Uart.State.{Uart}
use multi_port_convertor.Uart.Poll.{Action, reply, transmit, wait, release, resp_len, message_of}
use multi_port_convertor.Uart.Poll.Pass.{action_on, posted_one, posted_by}
use multi_port_convertor.Uart.Tasks.{pending, held}

-- The message asks for the whole frame.
abbrev pub Fits : Uart → Message → Type 0
Fits u m = m.data_len ≡ resp_len m.p u

abbrev pub HandFits : Uart → Option Message → Type 0
HandFits u none = Unit
HandFits u (some m) = Fits u m

-- Messages about other buffers fit as before.
pub Fits-away :
    (a : ℕ) (u v : Uart)
    → ((b : ℕ) → (b == a) ≡ false → (v.formats b).cmd ≡ (u.formats b).cmd)
    → (q : Mailbox) → pending a q ≡ 0
    → All (Fits u) q
    → All (Fits v) q
Fits-away a u v same [] e h = tt
Fits-away a u v same (m ∷ q) e (f, h) =
    (ground (arith, same m.p), Fits-away a u v same q (ground arith) h)

pub HandFits-away :
    (a : ℕ) (u v : Uart)
    → ((b : ℕ) → (b == a) ≡ false → (v.formats b).cmd ≡ (u.formats b).cmd)
    → (hand : Option Message) → held a hand ≡ 0
    → HandFits u hand
    → HandFits v hand
HandFits-away a u v same none e h = tt
HandFits-away a u v same (some m) e h = ground (arith, same m.p)

-- Where no frame changes, all messages fit as before.
pub Fits-same :
    (u v : Uart)
    → ((b : ℕ) → (v.formats b).cmd ≡ (u.formats b).cmd)
    → (q : Mailbox) → All (Fits u) q
    → All (Fits v) q
Fits-same u v same [] h = tt
Fits-same u v same (m ∷ q) (f, h) = (ground (arith, same m.p), Fits-same u v same q h)

pub HandFits-same :
    (u v : Uart)
    → ((b : ℕ) → (v.formats b).cmd ≡ (u.formats b).cmd)
    → (hand : Option Message) → HandFits u hand
    → HandFits v hand
HandFits-same u v same none h = tt
HandFits-same u v same (some m) h = ground (arith, same m.p)

Fits-enqueue :
    (u : Uart) (m : Message) (q : Mailbox) → Fits u m → All (Fits u) q → All (Fits u) (enqueue m q)
unfolding enqueue
Fits-enqueue u m [] f h = (f, tt)
Fits-enqueue u m (x ∷ q) f (g, h) = elim (Bool-cases (ltb x.prio m.prio)) [
  | inl e ↦ rw e (f, (g, h))
  | inr e ↦ rw e (g, Fits-enqueue u m q f h)
]

Fits-posted_one :
    (u : Uart) (a : Action) (b : ℕ) (q : Mailbox)
    → All (Fits u) q
    → All (Fits u) (posted_one a (message_of b u) q)
Fits-posted_one u reply b q h = Fits-enqueue u (message_of b u) q refl h
Fits-posted_one u transmit b q h = Fits-enqueue u (message_of b u) q refl h
Fits-posted_one u wait b q h = h
Fits-posted_one u release b q h = h

pub Fits-posted :
    (u : Uart) (bs : List ℕ) (q : Mailbox) → All (Fits u) q → All (Fits u) (posted_by u bs q)
Fits-posted u [] q h = h
Fits-posted u (b ∷ bs) q h =
    Fits-posted u bs (posted_one (action_on u b) (message_of b u) q)
      (Fits-posted_one u (action_on u b) b q h)
