-- ===== src/Uart/Poll/Pass.antt =====
-- What one pass of `uart_poll_tsk` does to the whole send list.
use multi_port_convertor.Base.{
  ℕ, ◌≡◌, refl, ap, ap₂, sym, ◌∙◌, Bool, true, false, List, [], ◌∷◌, ◌++◌, arith, ◌==◌,
  if◌then◌else◌, has, Distinct, Bool-cases, inl, inr, append-nil, append_assoc, eq_of_==,
  append_assoc,
}
use multi_port_convertor.Tool.Mailbox.{Message, Mailbox, enqueue}
use multi_port_convertor.Uart.State.{Poll, SendFormat, Uart}
use multi_port_convertor.Uart.Poll.{
  Action, keeps, reply, transmit, wait, release, poll_action, message_of, perform, poll_entry,
  poll_walk, uart_poll_pass,
}

-- The action of a pass on an entry, by what its `poll` is before the pass.
abbrev pub action_on : Uart → ℕ → Action
action_on u b = (poll_action (u.formats b).poll).0

-- The entries that stay.
abbrev pub kept_by : Uart → List ℕ → List ℕ
kept_by u [] = []
kept_by u (b ∷ bs) = let rest = kept_by u bs in if keeps (action_on u b) then b ∷ rest else rest

abbrev pub released_one : Action → ℕ → List ℕ
released_one reply b = []
released_one transmit b = []
released_one wait b = []
released_one release b = b ∷ []

-- The buffers that are released.
abbrev pub released_by : Uart → List ℕ → List ℕ
released_by u [] = []
released_by u (b ∷ bs) = released_one (action_on u b) b ++ released_by u bs

abbrev pub posted_one : Action → Message → Mailbox → Mailbox
posted_one reply m q = enqueue m q
posted_one transmit m q = enqueue m q
posted_one wait m q = q
posted_one release m q = q

-- The queue when the frames of the entries that are due have been posted, in the list's order.
abbrev pub posted_by : Uart → List ℕ → Mailbox → Mailbox
posted_by u [] q = q
posted_by u (b ∷ bs) q = posted_by u bs (posted_one (action_on u b) (message_of b u) q)

-- What a pass makes of the buffer of an entry: the frame stays, and `poll` makes its step.
abbrev pub stepped : SendFormat → SendFormat
stepped s = record s { poll = (poll_action s.poll).1 }

-- The effect on the buffers of one entry's turn.
record Turn (b : ℕ) (a : Action) (p : Poll) (u : Uart) (out : Bool × Uart) : Type 0 where
  keep : out.0 ≡ keeps a
  free : out.1.free ≡ u.free ++ released_one a b
  mail : out.1.mailbox ≡ posted_one a (message_of b u) u.mailbox
  same_id : out.1.mbx_id ≡ u.mbx_id
  at_entry : out.1.formats b ≡ record (u.formats b) { poll = p }
  elsewhere : (c : ℕ) → (c == b) ≡ false → out.1.formats c ≡ u.formats c

perform-Turn : (b : ℕ) (a : Action) (p : Poll) (u : Uart) → Turn b a p u (perform b a p u)
perform-Turn b reply p u = record {
  keep = refl;
  free = sym (append-nil u.free);
  mail = ground arith;
  same_id = refl;
  at_entry = ground arith;
  elsewhere = λ c n. ground arith;
}
perform-Turn b transmit p u = record {
  keep = refl;
  free = sym (append-nil u.free);
  mail = ground arith;
  same_id = refl;
  at_entry = ground arith;
  elsewhere = λ c n. ground arith;
}
perform-Turn b wait p u = record {
  keep = refl;
  free = sym (append-nil u.free);
  mail = ground arith;
  same_id = refl;
  at_entry = ground arith;
  elsewhere = λ c n. ground arith;
}
perform-Turn b release p u = record {
  keep = refl;
  free = refl;
  mail = ground arith;
  same_id = refl;
  at_entry = ground arith;
  elsewhere = λ c n. ground arith;
}

poll_entry-Turn :
    (b : ℕ) (u : Uart)
    → Turn b (action_on u b) (poll_action (u.formats b).poll).1 u (poll_entry b u)
unfolding poll_entry
poll_entry-Turn b u = perform-Turn b (action_on u b) (poll_action (u.formats b).poll).1 u

-- The lists of a walk depend on the buffers of its entries alone.
module _ (u v : Uart) (same_id : v.mbx_id ≡ u.mbx_id) where
  Same : List ℕ → Type 0
  Same bs = (c : ℕ) → has c bs ≡ true → v.formats c ≡ u.formats c

  action-Same : (b : ℕ) (bs : List ℕ) → Same (b ∷ bs) → action_on v b ≡ action_on u b
  unfolding Same
  action-Same b bs h = ap (λ s. (poll_action s.poll).0) (h b (ground arith))

  message-Same : (b : ℕ) (bs : List ℕ) → Same (b ∷ bs) → message_of b v ≡ message_of b u
  unfolding Same
  message-Same b bs h = ground (arith, same_id, h b (ground arith))

  kept_by-Same : (bs : List ℕ) → Same bs → kept_by v bs ≡ kept_by u bs
  unfolding Same
  kept_by-Same [] h = refl
  kept_by-Same (b ∷ bs) h = rw (action-Same b bs h, kept_by-Same bs (λ c m. h c (ground arith)))

  released_by-Same : (bs : List ℕ) → Same bs → released_by v bs ≡ released_by u bs
  unfolding Same
  released_by-Same [] h = refl
  released_by-Same (b ∷ bs) h =
      rw (action-Same b bs h, released_by-Same bs (λ c m. h c (ground arith)))

  posted_by-Same : (bs : List ℕ) (q : Mailbox) → Same bs → posted_by v bs q ≡ posted_by u bs q
  unfolding Same
  posted_by-Same [] q h = refl
  posted_by-Same (b ∷ bs) q h =
      posted_by-Same bs (posted_one (action_on v b) (message_of b v) q) (λ c m. h c (ground arith))
      ∙ ap₂ (λ a m. posted_by u bs (posted_one a m q)) (action-Same b bs h) (message-Same b bs h)

-- The effect of a walk.
pub record Walked (bs : List ℕ) (u : Uart) (out : List ℕ × Uart) : Type 0 where
  pub kept : out.0 ≡ kept_by u bs
  pub free : out.1.free ≡ u.free ++ released_by u bs
  pub mail : out.1.mailbox ≡ posted_by u bs u.mailbox
  pub on_entry : (b : ℕ) → has b bs ≡ true → out.1.formats b ≡ stepped (u.formats b)
  pub elsewhere : (b : ℕ) → has b bs ≡ false → out.1.formats b ≡ u.formats b

poll_walk-Walked : (bs : List ℕ) (u : Uart) → Distinct bs → Walked bs u (poll_walk bs u)
unfolding poll_walk Same
poll_walk-Walked [] u d = record {
  kept = refl;
  free = sym (append-nil u.free);
  mail = refl;
  on_entry = λ b h. cc;
  elsewhere = λ b h. refl;
}
poll_walk-Walked (b ∷ bs) u d =
    let t = poll_entry-Turn b u in
    let u' = (poll_entry b u).1 in
    let w = poll_walk-Walked bs u' d.1 in
    let same : Same u u' t.same_id bs = λ c m. t.elsewhere c (ground arith) in
    record {
      kept = rw (t.keep, w.kept, kept_by-Same u u' t.same_id bs same);
      free =
          w.free
          ∙ rw (t.free, released_by-Same u u' t.same_id bs same)
              (append_assoc u.free (released_one (action_on u b) b) (released_by u bs));
      mail = w.mail ∙ rw t.mail (posted_by-Same u u' t.same_id bs _ same);
      on_entry = λ c h. elim (Bool-cases (c == b)) [
        | inl e ↦ rw (eq_of_== c b e) (w.elsewhere b d.0 ∙ t.at_entry)
        | inr n ↦ w.on_entry c (ground arith) ∙ ap stepped (t.elsewhere c n)
      ];
      elsewhere = λ c h. w.elsewhere c (ground arith) ∙ t.elsewhere c (ground arith);
    }

-- The state behind a pass.
pub record Passed (u v : Uart) : Type 0 where
  pub sends : v.sends ≡ kept_by u u.sends
  pub free : v.free ≡ u.free ++ released_by u u.sends
  pub mail : v.mailbox ≡ posted_by u u.sends u.mailbox
  pub on_entry : (b : ℕ) → has b u.sends ≡ true → v.formats b ≡ stepped (u.formats b)
  pub elsewhere : (b : ℕ) → has b u.sends ≡ false → v.formats b ≡ u.formats b

-- In a list whose entries are distinct, a pass treats each entry by its own `poll` alone: the list
-- keeps, in order, the entries that are sent again or wait; the frames that are due are posted in
-- the list's order; the buffers that are released join the free ones; each entry's `poll` makes its
-- step; and no frame and no other buffer changes.
pub uart_poll_pass-Passed : (u : Uart) → Distinct u.sends → Passed u (uart_poll_pass u)
unfolding uart_poll_pass
uart_poll_pass-Passed u d =
    let w = poll_walk-Walked u.sends u d in
    record {
      sends = w.kept;
      free = w.free;
      mail = w.mail;
      on_entry = w.on_entry;
      elsewhere = w.elsewhere;
    }
