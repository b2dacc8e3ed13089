-- ===== src/Tool/Mailbox.antt =====
-- tool/mailbox.h and tool/mailbox.c over a POSIX message queue, which keeps the messages with the
-- highest priority first, and those of one priority in the order of arrival. A call that waits for
-- room or for a message is modelled at the moment when it returns.
use multi_port_convertor.Base.{
  ℕ, ◌≡◌, refl, List, [], ◌∷◌, ◌++◌, Option, none, some, All, arith, Bool, true, false, ltb,
  if◌then◌else◌, Outcome, done, exits,
}

-- `struct message`. `p` names what the pointer points to.
pub record Message : Type 0 where
  pub id : ℕ
  pub prio : ℕ
  pub p : ℕ
  pub data_len : ℕ

abbrev pub Mailbox : Type 0
Mailbox = List Message

-- `mailbox_create`: what `mq_open` gives.
abbrev pub mailbox_create : Option ℕ → Outcome ℕ
mailbox_create none = exits
mailbox_create (some id) = done id

-- What `mq_send` does to the queue.
unfoldable pub enqueue : Message → Mailbox → Mailbox
enqueue m [] = m ∷ []
enqueue m (x ∷ q) = if ltb x.prio m.prio then m ∷ x ∷ q else x ∷ enqueue m q

-- `mailbox_post`; `sent` says whether `mq_send` succeeds.
abbrev pub mailbox_post : Message → (sent : Bool) → Mailbox → Outcome Mailbox
mailbox_post m true q = done (enqueue m q)
mailbox_post m false q = exits

-- `mailbox_timedpost`: a failure is only reported.
abbrev pub mailbox_timedpost : Message → (sent : Bool) → Mailbox → Mailbox × Bool
mailbox_timedpost m true q = (enqueue m q, true)
mailbox_timedpost m false q = (q, false)

-- `mailbox_pend`: the message overwrites the caller's. It waits on an empty queue, which is `none`.
abbrev pub mailbox_pend : Mailbox → Option (Message × Mailbox)
mailbox_pend [] = none
mailbox_pend (m ∷ q) = some (m, q)

-- `mailbox_timedpend` on an empty queue returns -1 at its time and leaves the caller's message.
abbrev pub mailbox_timedpend : Message → Mailbox → Bool × Message × Mailbox
mailbox_timedpend old [] = (false, old, [])
mailbox_timedpend old (m ∷ q) = (true, m, q)

-- `msg_cast`
abbrev pub msg_cast : Message → ℕ → ℕ → Message
msg_cast m id prio = record m { id = id; prio = prio }

-- All messages of the program have priority 0, so its queues are first in, first out.
pub enqueue-append :
    (m : Message) (q : Mailbox) → All (λ x. x.prio ≡ 0) q → m.prio ≡ 0 → enqueue m q ≡ q ++ (m ∷ [])
unfolding enqueue
enqueue-append m [] a e = refl
enqueue-append m (x ∷ q) a e = ground (arith, enqueue-append m q a.1)
