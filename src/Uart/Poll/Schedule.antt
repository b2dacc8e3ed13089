-- ===== src/Uart/Poll/Schedule.antt =====
-- When `uart_poll_tsk` sends a notification, and when it gives up.
use multi_port_convertor.Base.{
  ℕ, zero, suc, ◌+◌, ◌*◌, ◌/◌, ◌%◌, ◌≤◌, ◌<◌, ◌≡◌, ◌≢◌, refl, ap, ◌∙◌, arith, ◌==◌, if◌then◌else◌,
}
use multi_port_convertor.Uart.State.{Poll, zero_poll}
use multi_port_convertor.Uart.Poll.{Action, transmit, wait, release, poll_action}

-- The `poll` of a notification after `n` passes that see no answer.
unfoldable pub poll_after : ℕ → Poll → Poll
poll_after zero p = p
poll_after (suc n) p = (poll_action (poll_after n p)).1

-- A notification that has just been queued in a clean buffer.
abbrev pub notification : Poll
notification = record { delay = 0; times = 0; type = 1; free_flag = 0 }

-- After the first pass, 100 passes lie between two transmissions.
abbrev pub waiting : ℕ → Poll
waiting k = record { delay = 5 * (k % 100); times = 1 + k / 100; type = 1; free_flag = 0 }

poll_action-waiting :
    (k : ℕ)
    → k < 299
    → poll_action (waiting k) ≡ (if (k + 1) % 100 == 0 then transmit else wait, waiting (k + 1))
unfolding poll_action
poll_action-waiting k h = ground arith

poll_action-last : poll_action (waiting 299) ≡ (release, zero_poll)
unfolding poll_action
poll_action-last = refl

pub poll_after-waiting : (k : ℕ) → k < 300 → poll_after (suc k) notification ≡ waiting k
unfolding poll_after poll_action
poll_after-waiting zero h = refl
poll_after-waiting (suc k) h =
    ap (λ p. (poll_action p).1) (poll_after-waiting k (omega arith))
    ∙ ground (arith, poll_action-waiting k (omega arith))

-- What the pass with number `n` does with a notification that is never answered.
abbrev pub schedule : ℕ → Action
schedule n = if n == 300 then release else if n % 100 == 0 then transmit else wait

schedule-waiting : (k : ℕ) → k < 300 → (poll_action (waiting k)).0 ≡ schedule (suc k)
unfolding poll_action
schedule-waiting k h = ground arith

-- A notification that is never answered is sent in the passes 0, 100 and 200, and in pass 300 its
-- buffer is released; in the other passes nothing happens to it.
pub poll_action-schedule :
    (n : ℕ) → n ≤ 300 → (poll_action (poll_after n notification)).0 ≡ schedule n
unfolding poll_after poll_action
poll_action-schedule zero h = refl
poll_action-schedule (suc k) h =
    ap (λ p. (poll_action p).0) (poll_after-waiting k (omega arith))
    ∙ schedule-waiting k (omega arith)

-- A notification that has been sent and then answered is released by the next pass and not posted,
-- however often it has been sent and however long ago.
pub poll_action-answered :
    (p : Poll) → p.type ≡ 1 → p.times ≢ 0 → p.free_flag ≢ 0 → poll_action p ≡ (release, zero_poll)
unfolding poll_action
poll_action-answered p t n f = ground arith
