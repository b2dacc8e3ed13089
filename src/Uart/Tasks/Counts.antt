-- ===== src/Uart/Tasks/Counts.antt =====
-- How the operations on the buffers of uart/ change what is counted of each buffer.
use multi_port_convertor.Base.{
  ℕ, ◌+◌, ◌≡◌, refl, Bool, true, false, List, [], ◌∷◌, arith, ◌==◌, if◌then◌else◌, count,
  count-append,
}
use multi_port_convertor.Tool.Mailbox.{Message, Mailbox, enqueue}
use multi_port_convertor.Uart.State.{Uart}
use multi_port_convertor.Uart.Poll.{Action, reply, transmit, wait, release, keeps, message_of}
use multi_port_convertor.Uart.Poll.Pass.{
  action_on, kept_by, released_one, released_by, posted_one, posted_by,
}
use multi_port_convertor.Uart.Tasks.{pending}

abbrev pub releases : Action → Bool
releases release = true
releases _ = false

abbrev pub posts : Action → Bool
posts reply = true
posts transmit = true
posts _ = false

pub pending-enqueue :
    (b : ℕ) (m : Message) (q : Mailbox)
    → pending b (enqueue m q) ≡ (if m.p == b then 1 else 0) + pending b q
unfolding enqueue
pending-enqueue b m [] = refl
pending-enqueue b m (x ∷ q) = ground (arith, pending-enqueue b m q)

module _ (u : Uart) (b : ℕ) where
  pub count-kept :
      (bs : List ℕ) → count b (kept_by u bs) ≡ (if keeps (action_on u b) then count b bs else 0)
  count-kept [] = ground arith
  count-kept (c ∷ bs) = ground (arith, count-kept bs)

  count-released_one :
      (a : Action) (c : ℕ)
      → count b (released_one a c) ≡ (if releases a then if c == b then 1 else 0 else 0)
  count-released_one reply c = refl
  count-released_one transmit c = refl
  count-released_one wait c = refl
  count-released_one release c = omega arith

  pub count-released :
      (bs : List ℕ)
      → count b (released_by u bs) ≡ (if releases (action_on u b) then count b bs else 0)
  count-released [] = ground arith
  count-released (c ∷ bs) = ground (
    arith,
    count-append b (released_one (action_on u c) c) (released_by u bs),
    count-released_one (action_on u c) c,
    count-released bs,
  )

  pending-posted_one :
      (a : Action) (m : Message) (q : Mailbox)
      → pending b (posted_one a m q)
        ≡ (if posts a then if m.p == b then 1 else 0 else 0) + pending b q
  pending-posted_one reply m q = pending-enqueue b m q
  pending-posted_one transmit m q = pending-enqueue b m q
  pending-posted_one wait m q = omega arith
  pending-posted_one release m q = omega arith

  pub pending-posted :
      (bs : List ℕ) (q : Mailbox)
      → pending b (posted_by u bs q)
        ≡ pending b q + (if posts (action_on u b) then count b bs else 0)
  pending-posted [] q = ground arith
  pending-posted (c ∷ bs) q = ground (
    arith,
    pending-posted bs (posted_one (action_on u c) (message_of c u) q),
    pending-posted_one (action_on u c) (message_of c u) q,
  )
