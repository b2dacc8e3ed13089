-- ===== src/Uart/Tasks/Places.antt =====
-- Where a buffer of `g_uart_send_buf` is, and how it moves, as a matter of counts alone.
use multi_port_convertor.Base.{
  ℕ, zero, suc, ◌+◌, ◌-◌, ◌≤◌, ◌<◌, ◌≡◌, refl, arith, ◌==◌, if◌then◌else◌, Bool-cases, inl, inr,
}
use multi_port_convertor.Uart.State.{Poll, zero_poll}
use multi_port_convertor.Uart.Poll.{keeps, release, poll_action}
use multi_port_convertor.Uart.Tasks.{buffers}
use multi_port_convertor.Uart.Tasks.Counts.{releases, posts}

-- The places of the buffer `b`, which stands `cf` times among the free ones and `cs` times in the
-- send list, with `pd` messages about it that are not dealt with, and `p` in its memory: no such
-- buffer; free; an answer that waits to be posted; a notification not yet posted; one that is
-- posted and not answered; one that is answered; an answer that is posted.
pub data Place (b cf cs pd : ℕ) (p : Poll) : Type 0 where
  outside : buffers ≤ b → cf ≡ 0 → cs ≡ 0 → pd ≡ 0 → Place b cf cs pd p
  is_free : b < buffers → cf ≡ 1 → cs ≡ 0 → pd ≡ 0 → p ≡ zero_poll → Place b cf cs pd p
  to_answer : b < buffers → cf ≡ 0 → cs ≡ 1 → pd ≡ 0 → p.type ≡ 0 → Place b cf cs pd p
  to_notify :
      b < buffers
      → cf ≡ 0
      → cs ≡ 1
      → pd ≡ 0
      → p.type ≡ 1
      → p.free_flag ≡ 0
      → p.times ≡ 0
      → Place b cf cs pd p
  notified :
      b < buffers
      → cf ≡ 0
      → cs ≡ 1
      → p.type ≡ 1
      → p.free_flag ≡ 0
      → 1 ≤ p.times
      → p.times ≤ 3
      → Place b cf cs pd p
  answered :
      b < buffers
      → cf ≡ 0
      → cs ≡ 1
      → pd ≡ 0
      → p.type ≡ 1
      → p.free_flag ≡ 1
      → 1 ≤ p.times
      → p.times ≤ 3
      → Place b cf cs pd p
  answering : b < buffers → cf ≡ 0 → cs ≡ 0 → pd ≡ 1 → p.free_flag ≡ 1 → Place b cf cs pd p

-- What a pass makes of the counts and of `poll`.
abbrev pub passed_free : ℕ → ℕ → Poll → ℕ
passed_free cf cs p = cf + (if releases (poll_action p).0 then cs else 0)

abbrev pub passed_sends : ℕ → Poll → ℕ
passed_sends cs p = if keeps (poll_action p).0 then cs else 0

abbrev pub passed_pending : ℕ → ℕ → Poll → ℕ
passed_pending pd cs p = pd + (if posts (poll_action p).0 then cs else 0)

pub pass-Place :
    {b cf cs pd : ℕ} {p p' : Poll}
    → Place b cf cs pd p
    → (cs ≡ 1 → (poll_action p).0 ≡ release → pd ≡ 0)
    → (cs ≡ 1 → p' ≡ (poll_action p).1)
    → (cs ≡ 0 → p' ≡ p)
    → Place b (passed_free cf cs p) (passed_sends cs p) (passed_pending pd cs p) p'
unfolding poll_action
pass-Place (outside l f s q) late on off = outside l (ground arith) (ground arith) (ground arith)
pass-Place (is_free l f s q z) late on off =
    is_free l (ground arith) (ground arith) (ground arith) (ground (arith, off s))
pass-Place (to_answer l f s q t) late on off =
    answering l (ground arith) (ground arith) (ground arith) (ground (arith, on s))
pass-Place (to_notify l f s q t g n) late on off =
    notified l (ground arith) (ground arith) (ground (arith, on s)) (ground (arith, on s))
      (ground (arith, on s)) (ground (arith, on s))
pass-Place {p} (notified l f s t g n m) late on off =
    elim (Bool-cases (releases (poll_action p).0)) [
      | inl r ↦
          let k : (poll_action p).0 ≡ release = ground arith in
          is_free l (ground arith) (ground arith) (ground (arith, late s k)) (ground (arith, on s))
      | inr r ↦
          notified l (ground arith) (ground arith) (ground (arith, on s)) (ground (arith, on s))
            (ground (arith, on s)) (ground (arith, on s))
    ]
pass-Place (answered l f s q t g n m) late on off =
    is_free l (ground arith) (ground arith) (ground arith) (ground (arith, on s))
pass-Place (answering l f s q g) late on off =
    answering l (ground arith) (ground arith) (ground arith) (ground (arith, off s))

-- The first free buffer is queued.
pub queue-Place :
    {b cf cs pd : ℕ} {p : Poll} (t : ℕ)
    → t ≤ 1
    → Place b cf cs pd p
    → 1 ≤ cf
    → Place b (cf - 1) (cs + 1) pd (record p { type = t })
queue-Place zero k (is_free l f s q z) c = to_answer l (omega arith) (omega arith) q refl
queue-Place (suc t) k (is_free l f s q z) c =
    to_notify l (omega arith) (omega arith) q (omega arith) (ground arith) (ground arith)
queue-Place t k (outside l f s q) c = absurd (omega arith)
queue-Place t k (to_answer l f s q y) c = absurd (omega arith)
queue-Place t k (to_notify l f s q y g n) c = absurd (omega arith)
queue-Place t k (notified l f s y g n m) c = absurd (omega arith)
queue-Place t k (answered l f s q y g n m) c = absurd (omega arith)
queue-Place t k (answering l f s q g) c = absurd (omega arith)

-- A frame of the send list is marked as answered.
pub mark-Place :
    {b cf cs pd : ℕ} {p : Poll}
    → Place b cf cs pd p
    → 1 ≤ cs
    → (p.type ≡ 1 → (1 ≤ p.times) × (pd ≡ 0))
    → Place b cf cs pd (record p { free_flag = 1 })
mark-Place (to_answer l f s q y) c h = to_answer l f s q y
mark-Place (to_notify l f s q y g n) c h = absurd (omega (arith, (h y).0))
mark-Place (notified l f s y g n m) c h = answered l f s (h y).1 y refl n m
mark-Place (answered l f s q y g n m) c h = answered l f s q y refl n m
mark-Place (outside l f s q) c h = absurd (omega arith)
mark-Place (is_free l f s q z) c h = absurd (omega arith)
mark-Place (answering l f s q g) c h = absurd (omega arith)

-- A message for the buffer has been dealt with.
pub sent-Place :
    {b cf cs pd cf' : ℕ} {p p' : Poll}
    → Place b cf cs (suc pd) p
    → cf' ≡ (if p.free_flag == 0 then cf else cf + 1)
    → p' ≡ (if p.free_flag == 0 then p else zero_poll)
    → Place b cf' cs pd p'
sent-Place (notified l f s y g n m) c h =
    notified l (ground arith) s (ground arith) (ground arith) (ground arith) (ground arith)
sent-Place (answering l f s q g) c h = is_free l (ground arith) s (omega arith) (ground arith)
sent-Place (to_answer l f s q y) c h = absurd (omega arith)
sent-Place (to_notify l f s q y g n) c h = absurd (omega arith)
sent-Place (answered l f s q y g n m) c h = absurd (omega arith)
sent-Place (outside l f s q) c h = absurd (omega arith)
sent-Place (is_free l f s q z) c h = absurd (omega arith)
