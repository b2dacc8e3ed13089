-- ===== src/Uart/Poll/Delivery.antt =====
-- A notification among the other entries of the send list in `uart_poll_tsk` of
-- uart/uart_communicat.c, from the first pass to the last.
use multi_port_convertor.Base.{
  ℕ, zero, suc, ◌≤◌, ◌<◌, ◌≡◌, refl, ap, ◌∙◌, true, false, ◌&&◌, List, [], ◌∷◌, arith, has,
  has-append, Distinct, ◌+◌, count, count-has, ◌==◌, if◌then◌else◌,
}
use multi_port_convertor.Uart.Frame.{CmdFormat}
use multi_port_convertor.Uart.State.{SendFormat, Uart}
use multi_port_convertor.Uart.Poll.{release, keeps, poll_action, uart_poll_pass}
use multi_port_convertor.Uart.Poll.Pass.{
  action_on, kept_by, released_one, released_by, stepped, uart_poll_pass-Passed,
}
use multi_port_convertor.Uart.Tasks.{pending}
use multi_port_convertor.Uart.Tasks.Counts.{posts, pending-posted}
use multi_port_convertor.Uart.Poll.Schedule.{
  poll_after, notification, schedule, poll_action-schedule,
}

has-kept_by :
    (u : Uart) (b : ℕ) (bs : List ℕ) → has b (kept_by u bs) ≡ (has b bs && keeps (action_on u b))
has-kept_by u b [] = refl
has-kept_by u b (c ∷ bs) = ground (arith, has-kept_by u b bs)

Distinct-kept_by : (u : Uart) (bs : List ℕ) → Distinct bs → Distinct (kept_by u bs)
Distinct-kept_by u [] d = tt
Distinct-kept_by u (c ∷ bs) d = ground (arith, has-kept_by u c bs, Distinct-kept_by u bs d.1)

has-released_by :
    (u : Uart) (b : ℕ) (bs : List ℕ)
    → has b bs ≡ true
    → action_on u b ≡ release
    → has b (released_by u bs) ≡ true
has-released_by u b [] h e = cc
has-released_by u b (c ∷ bs) h e = ground (
  arith,
  has-append b (released_one (action_on u c) c) (released_by u bs),
  has-released_by u b bs,
)

-- `n` rounds of the task, with nothing else in between.
unfoldable pub passes : ℕ → Uart → Uart
passes zero u = u
passes (suc n) u = uart_poll_pass (passes n u)

-- The notification `b` waits in the list after `n` passes, with its frame.
pub record Waits (b : ℕ) (cmd : CmdFormat) (n : ℕ) (v : Uart) : Type 0 where
  pub distinct : Distinct v.sends
  pub waits : has b v.sends ≡ true
  pub format : v.formats b ≡ record { poll = poll_after n notification; cmd = cmd }

schedule-keeps : (n : ℕ) → n < 300 → keeps (schedule n) ≡ true
schedule-keeps n h = ground arith

passes-step :
    (b : ℕ) (cmd : CmdFormat) (n : ℕ) (v : Uart)
    → n < 300
    → Waits b cmd n v
    → Waits b cmd (suc n) (uart_poll_pass v)
unfolding poll_after
passes-step b cmd n v h w =
    let p = uart_poll_pass-Passed v w.distinct in
    let a : action_on v b ≡ schedule n =
      ap (λ s. (poll_action s.poll).0) w.format ∙ poll_action-schedule n (omega arith) in
    record {
      distinct = rw p.sends (Distinct-kept_by v v.sends w.distinct);
      waits = rw p.sends (has-kept_by v b v.sends ∙ ground (arith, w.waits, a, schedule-keeps n h));
      format = p.on_entry b w.waits ∙ ap stepped w.format;
    }

-- An entry that is released leaves the list for the free buffers.
pass-release :
    (v : Uart) (b : ℕ)
    → Distinct v.sends
    → has b v.sends ≡ true
    → action_on v b ≡ release
    → (has b (uart_poll_pass v).sends ≡ false) × (has b (uart_poll_pass v).free ≡ true)
pass-release v b d w e =
    let p = uart_poll_pass-Passed v d in
    (
      rw p.sends (has-kept_by v b v.sends ∙ ground (arith, w, e)),
      rw p.free (
          has-append b v.free (released_by v v.sends)
          ∙ ground (arith, has-released_by v b v.sends w e)),
    )

passes-suc : (n : ℕ) (u : Uart) → passes (suc n) u ≡ uart_poll_pass (passes n u)
unfolding passes
passes-suc n u = refl

count-Distinct : (b : ℕ) (bs : List ℕ) → Distinct bs → has b bs ≡ true → count b bs ≡ 1
count-Distinct b [] d h = cc
count-Distinct b (c ∷ bs) d h = ground (arith, count-Distinct b bs, count-has b bs)

-- One message more where the pass has a multiple of 100 below 300 as its number.
abbrev pub posts_at : ℕ → ℕ
posts_at n = if n == 0 then 1 else if n == 100 then 1 else if n == 200 then 1 else 0

posts-schedule : (n : ℕ) → n ≤ 300 → (if posts (schedule n) then 1 else 0) ≡ posts_at n
posts-schedule n h = ground arith

-- What a pass adds to the messages about an entry.
pass-pending :
    (v : Uart) (b : ℕ) (n : ℕ)
    → Distinct v.sends
    → has b v.sends ≡ true
    → n ≤ 300
    → action_on v b ≡ schedule n
    → pending b (uart_poll_pass v).mailbox ≡ pending b v.mailbox + posts_at n
pass-pending v b n d w h e =
    let p = uart_poll_pass-Passed v d in
    rw (p.mail, pending-posted v b v.sends v.mailbox, e, count-Distinct b v.sends d w)
      (ap (λ k. pending b v.mailbox + k) (posts-schedule n h))

module _ (u : Uart) (b : ℕ) (distinct : Distinct u.sends) (waits : has b u.sends ≡ true)
    (fresh : (u.formats b).poll ≡ notification) where
  passes-Waits : (n : ℕ) → n ≤ 300 → Waits b (u.formats b).cmd n (passes n u)
  unfolding passes poll_after
  passes-Waits zero h = record {
    distinct = distinct;
    waits = waits;
    format = ap (λ p. record { poll = p; cmd = (u.formats b).cmd }) fresh;
  }
  passes-Waits (suc n) h =
      passes-step b (u.formats b).cmd n (passes n u) h (passes-Waits n (omega arith))

  -- In a list of distinct entries, a notification whose `poll` is of type 1 and else cleared, and
  -- over passes of `uart_poll_tsk` with nothing else in between, no answer and no new frame: pass
  -- `n`, for `n` up to 300, finds it in the list with its frame unchanged and does to it what
  -- `schedule n` says. The passes 0, 100 and 200 each put exactly one more message about its buffer
  -- into the queue, and the others up to 300 put none there. After 301 passes it is out of the list
  -- and its buffer is free.
  pub passes-delivery :
      ((n : ℕ)
        → n ≤ 300
        → (action_on (passes n u) b ≡ schedule n)
          × (pending b (passes (suc n) u).mailbox ≡ pending b (passes n u).mailbox + posts_at n)
          × (has b (passes n u).sends ≡ true)
          × (((passes n u).formats b).cmd ≡ (u.formats b).cmd))
      × (has b (passes 301 u).sends ≡ false)
      × (has b (passes 301 u).free ≡ true)
  passes-delivery =
      let action = λ (n : ℕ) (h : n ≤ 300).
        ap (λ (s : SendFormat). (poll_action s.poll).0) (passes-Waits n h).format
        ∙ poll_action-schedule n h in
      let w = passes-Waits 300 (omega arith) in
      let (out, free) =
        pass-release (passes 300 u) b w.distinct w.waits (action 300 (omega arith)) in
      (
        λ n h.
            let v = passes-Waits n h in
            (
              action n h,
              rw (passes-suc n u) (pass-pending (passes n u) b n v.distinct v.waits h (action n h)),
              v.waits,
              ap (λ s. s.cmd) v.format,
            ),
        rw (passes-suc 300 u) out,
        rw (passes-suc 300 u) free,
      )
