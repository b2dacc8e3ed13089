-- ===== src/Usb/Reader/Buffers.antt =====
-- The buffers of `g_hid_buf` between the reader's task and the task of the data.
use multi_port_convertor.Base.{
  Bool, Safe, Safe-bind, always, rotate, rotate-length, to_middle, put, read, leb, Bool-cases, inl,
  inr, ℕ, ◌≡◌, refl, ◌∙◌, List, [], ◌∷◌, ◌++◌, map, map-append, arith, All, Option, none, some,
  done, ◌==◌, if◌then◌else◌, Distinct, append_assoc, length, length-append,
}
use multi_port_convertor.Tool.FreeList
use multi_port_convertor.Tool.Mailbox.{Message, Mailbox, enqueue, enqueue-append}
use multi_port_convertor.Uart.State.{Uart}
use multi_port_convertor.Uart.Notify.{hid_pullout_ntf, hid_data_ntf}
use multi_port_convertor.Usb.Data.{
  Hid, send_text, on_key, key_of, on_report, on_silence, hid_data_round, hid_time_out,
}
use multi_port_convertor.Usb.Reader.{report_message, take_buffer, on_read}

abbrev pub ids : Mailbox → List ℕ
ids q = map (λ m. m.p) q

-- The buffers in the queue, those that a task holds, and the free ones.
abbrev pub line : List ℕ → Hid → List ℕ
line held h = ids h.mailbox ++ (held ++ h.free)

-- Each of the `n` buffers is in the queue, held or free, and only once.
pub record IsWhole (n : ℕ) (held : List ℕ) (h : Hid) : Type 0 where
  pub distinct : Distinct (line held h)
  pub count : length (line held h) ≡ n
  pub prio : All (λ m. m.prio ≡ 0) h.mailbox

All-append_one :
    (q : Mailbox) (m : Message)
    → All (λ x. x.prio ≡ 0) q
    → m.prio ≡ 0
    → All (λ x. x.prio ≡ 0) (q ++ (m ∷ []))
All-append_one [] m a e = (e, tt)
All-append_one (x ∷ q) m a e = (a.0, All-append_one q m a.1 e)

enqueued :
    (h : Hid) (m : Message) (fs : List ℕ)
    → All (λ x. x.prio ≡ 0) h.mailbox
    → m.prio ≡ 0
    → ids (enqueue m h.mailbox) ++ fs ≡ ids h.mailbox ++ (m.p ∷ fs)
enqueued h m fs a e =
    rw (enqueue-append m h.mailbox a e, map-append (λ x. x.p) h.mailbox (m ∷ []))
      (append_assoc (ids h.mailbox) (m.p ∷ []) fs)

module _ (stack : List ℕ) (n : ℕ) where
  pub take_buffer-IsWhole :
      (fs : List ℕ) (h : Hid)
      → h.free ≡ fs
      → IsWhole n [] h
      → Safe (λ x. IsWhole n (x.0 ∷ []) x.1) (take_buffer h)
  unfolding take_buffer
  take_buffer-IsWhole [] h e v = rw e tt
  take_buffer-IsWhole (b ∷ fs) h e v =
      rw e (record { distinct = rw e at v.distinct; count = rw e at v.count; prio = v.prio })

  pub on_read-IsWhole :
      (b : ℕ) (w : Option (List ℕ)) (h : Hid) (u : Uart)
      → IsWhole n (b ∷ []) h
      → Safe (λ x. IsWhole n [] x.1) (on_read stack b w h u)
  unfolding on_read
  on_read-IsWhole b none h u v =
      Safe-bind {A = Uart} {B = Bool × Hid × Uart} (λ _. Unit {0}) (λ x. IsWhole n [] x.1)
        (hid_pullout_ntf stack h.hid_dev_type u) _ (always _)
        (λ u' _. record {
          distinct = rotate (ids h.mailbox) b h.free v.distinct;
          count = rotate-length (ids h.mailbox) b h.free ∙ v.count;
          prio = v.prio;
        })
  on_read-IsWhole b (some w) h u v =
      let m = report_message b h in
      record {
        distinct = rw (enqueued h m h.free v.prio refl) v.distinct;
        count = rw (enqueued h m h.free v.prio refl) v.count;
        prio = rw (enqueue-append m h.mailbox v.prio refl) (All-append_one h.mailbox m v.prio refl);
      }

  -- The keys and the text do not touch the buffers.
  Same : Hid → Hid → Type 0
  Same h h' = (h'.free ≡ h.free) × (h'.mailbox ≡ h.mailbox)

  send_text-Same : (h : Hid) (u : Uart) → Safe (λ (h', u'). Same h h') (send_text stack h u)
  unfolding send_text Same
  send_text-Same h u =
      Safe-bind (λ _. Unit {0}) (λ (h', u'). Same h h') (put h.hid_key_buf h.hid_key_length 0) _
        (always _)
        (λ buf _.
          Safe-bind (λ _. Unit {0}) (λ (h', u'). Same h h') (read buf h.hid_key_length) _ (always _)
            (λ text _.
              Safe-bind (λ _. Unit {0}) (λ (h', u'). Same h h')
                (hid_data_ntf stack text h.hid_dev_type u) _ (always _) (λ u' _. (refl, refl))))

  on_key-Same :
      (k : Option ℕ) (h : Hid) (u : Uart) → Safe (λ (h', u'). Same h h') (on_key stack k h u)
  unfolding on_key Same
  on_key-Same none h u = (refl, refl)
  on_key-Same (some c) h u = elim (Bool-cases (c == 13)) [
    | inl e ↦ rw e (send_text-Same h u)
    | inr e ↦ rw e (
        Safe-bind (λ _. Unit {0}) (λ (h', u'). Same h h') (put h.hid_key_buf h.hid_key_length c) _
          (always _) (λ buf _. (refl, refl)))
  ]

  on_report-Whole :
      (held : List ℕ) (m : Message) (q : Mailbox) (h : Hid) (u : Uart)
      → h.mailbox ≡ q
      → IsWhole n held (record h { mailbox = m ∷ q })
      → Safe (λ (h', u'). IsWhole n held h') (on_report stack m.p h u)
  unfolding on_report Same
  on_report-Whole held m q h u e v =
      Safe-bind (λ (h', u'). Same h h') (λ (h', u'). IsWhole n held h')
        (on_key stack (key_of (h.words m.p)) (record h { timer = 0 }) u)
        (λ (h', u'). done (record h' { free = FreeList.recycle h'.free m.p }, u'))
        (on_key-Same (key_of (h.words m.p)) (record h { timer = 0 }) u)
        (λ (h', u') (f, b). record {
          distinct =
              rw (b, f, e, ← (append_assoc held h.free (m.p ∷ [])))
                (rotate (ids q) m.p (held ++ h.free)
                  (to_middle (ids q) m.p (held ++ h.free) v.distinct));
          count =
              rw (b, f, e, ← (append_assoc held h.free (m.p ∷ [])))
                (omega (
                  arith,
                  v.count,
                  rotate-length (ids q) m.p (held ++ h.free),
                  length-append (ids q) (m.p ∷ (held ++ h.free)),
                  length-append (ids q) (held ++ h.free),
                ));
          prio = rw (b, e) v.prio.1;
        })

  on_silence-Whole :
      (held : List ℕ) (h : Hid) (u : Uart)
      → IsWhole n held h
      → Safe (λ (h', u'). IsWhole n held h') (on_silence stack h u)
  unfolding on_silence Same
  on_silence-Whole held h u v = elim (Bool-cases (leb hid_time_out h.timer)) [
    | inr e ↦ rw e v
    | inl e ↦ rw e (
        Safe-bind (λ (h', u'). Same h h') (λ (h', u'). IsWhole n held h')
          (if h.hid_key_length == 0 then done (h, u) else send_text stack h u)
          (λ (h', u'). done (record h' { timer = 0 }, u'))
          (elim (Bool-cases (h.hid_key_length == 0)) [
            | inl z ↦ rw z (refl, refl)
            | inr z ↦ rw z (send_text-Same h u)
          ])
          (λ (h', u') (f, b). record {
            distinct = rw (b, f) v.distinct;
            count = rw (b, f) v.count;
            prio = rw b v.prio;
          }))
  ]

  round_on :
      (held : List ℕ) (q : Mailbox) (msg : Message) (h : Hid) (u : Uart)
      → h.mailbox ≡ q
      → IsWhole n held (record h { mailbox = q })
      → Safe (λ (m, h', u'). IsWhole n held h') (hid_data_round stack msg h u)
  unfolding hid_data_round
  round_on held [] msg h u e v = rw e (
      Safe-bind (λ (h', u'). IsWhole n held h') (λ (m, h', u'). IsWhole n held h')
        (on_silence stack (record h { mailbox = [] }) u) (λ (h', u'). done (msg, h', u'))
        (on_silence-Whole held (record h { mailbox = [] }) u v) (λ (h', u') w. w))
  round_on held (m ∷ q) msg h u e v = rw e (
      Safe-bind (λ (h', u'). IsWhole n held h') (λ (m, h', u'). IsWhole n held h')
        (on_report stack m.p (record h { mailbox = q }) u) (λ (h', u'). done (m, h', u'))
        (on_report-Whole held m q (record h { mailbox = q }) u refl v) (λ (h', u') w. w))

  -- If each buffer is once in the queue or among the free ones, and all messages have priority 0,
  -- this holds for the state that a round of `hid_data_tsk` ends with, whether a message came or
  -- not.
  pub hid_data_round-IsWhole :
      (held : List ℕ) (msg : Message) (h : Hid) (u : Uart)
      → IsWhole n held h
      → Safe (λ (m, h', u'). IsWhole n held h') (hid_data_round stack msg h u)
  hid_data_round-IsWhole held msg h u v = round_on held h.mailbox msg h u refl v
