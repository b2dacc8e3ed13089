-- ===== src/Usb/Data/Text.antt =====
-- When `hid_data_tsk` of usb/usb_communicat.c hands a text on to the serial port.
use multi_port_convertor.Base.{
  ==_refl, ℕ, suc, ◌≤◌, ◌<◌, ◌≡◌, refl, List, [], ◌∷◌, ◌++◌, arith, some, done, ◌>>=◌, put-done,
  read-done, length, length-append, length-drop, drop, take-append, set-behind,
}
use multi_port_convertor.Tool.FreeList
use multi_port_convertor.Uart.State.{Uart}
use multi_port_convertor.Uart.Notify.Frames.{queued}
use multi_port_convertor.Uart.Notify.Texts.{text_info, hid_data_ntf-queued}
use multi_port_convertor.Usb.Data.{Hid, send_text, on_key, key_of, on_report, on_silence}
use multi_port_convertor.Usb.Data.Typing.{
  Holds, Yields, arrives, on_reports, Types, Yields-bind, typed, is_late, is_typed,
}

module _ (stack old : List ℕ) (dev_type : ℕ) (room : length old ≡ 128) where
  -- The buffer, the count and what the port has been given once a text is sent.
  abbrev Sent : List ℕ → Uart → Hid → Uart → Type 0
  Sent cs sent h u = (h.hid_key_length ≡ 0) × (length h.hid_key_buf ≡ 128) × (u ≡ sent)

  send_text_lem :
      (cs : List ℕ) (h : Hid) (u : Uart) (b : ℕ) (rest before : List ℕ)
      → Holds cs old dev_type h
      → length cs ≤ 127
      → u.free ≡ b ∷ rest
      → (u.formats b).cmd.payload ≡ before
      → length before ≡ 129
      → length stack ≡ 128
      → Yields
          (Sent cs (queued (text_info cs dev_type stack) u b rest (dev_type ∷ cs) before))
          (send_text stack h u)
  unfolding send_text
  send_text_lem cs h u b rest before v l f e o st =
      let buf = cs ++ (0 ∷ drop (suc (length cs)) old) in
      rw
        (
          v.text,
          v.count,
          v.device,
          put-done (cs ++ drop (length cs) old) (length cs) 0
              (omega (arith, length-append cs (drop (length cs) old), length-drop (length cs) old)),
          set-behind cs old 0 (omega arith),
          read-done buf (length cs)
              (omega (arith, length-append cs (0 ∷ drop (suc (length cs)) old))),
          take-append cs (0 ∷ drop (suc (length cs)) old),
          hid_data_ntf-queued stack cs dev_type u b rest before st l f e o,
        )
        (
          refl,
          omega (
            arith,
            length-append cs (0 ∷ drop (suc (length cs)) old),
            length-drop (suc (length cs)) old,
          ),
          refl,
        )

  module _ (b : ℕ) (rest before : List ℕ) (filled : length stack ≡ 128)
      (sized : length before ≡ 129) where
    on_report-return :
        (cs : List ℕ) (c : ℕ) (w : List ℕ) (h : Hid) (u : Uart)
        → key_of w ≡ some 13
        → Holds cs old dev_type h
        → length cs ≤ 127
        → u.free ≡ b ∷ rest
        → (u.formats b).cmd.payload ≡ before
        → Yields
            (Sent cs (queued (text_info cs dev_type stack) u b rest (dev_type ∷ cs) before))
            (on_report stack c (arrives c w h) u)
    unfolding on_report on_key
    on_report-return cs c w h u k v l f e =
        rw (==_refl c, k)
          (Yields-bind P P (send_text stack typing u)
            (λ h' u'. done (record h' { free = FreeList.recycle h'.free c }, u'))
            (send_text_lem cs typing u b rest before
              (record { text = v.text; count = v.count; device = v.device }) l f e sized filled)
            (λ h' u' y. y))
      where
        typing : Hid
        typing = record (arrives c w h) { timer = 0 }

        P : Hid → Uart → Type 0
        P = Sent cs (queued (text_info cs dev_type stack) u b rest (dev_type ∷ cs) before)

    on_silence-flush :
        (cs : List ℕ) (t : ℕ) (h : Hid) (u : Uart)
        → 10 ≤ t
        → 0 < length cs
        → Holds cs old dev_type h
        → length cs ≤ 127
        → u.free ≡ b ∷ rest
        → (u.formats b).cmd.payload ≡ before
        → Yields
            (Sent cs (queued (text_info cs dev_type stack) u b rest (dev_type ∷ cs) before))
            (on_silence stack (record h { timer = t }) u)
    unfolding on_silence
    on_silence-flush cs t h u ten p v l f e =
        rw (is_late t ten, is_typed h.hid_key_length (omega (arith, v.count)))
          (Yields-bind P P (send_text stack late u) (λ h' u'. done (record h' { timer = 0 }, u'))
            (send_text_lem cs late u b rest before
              (record { text = v.text; count = v.count; device = v.device }) l f e sized filled)
            (λ h' u' y. y))
      where
        late : Hid
        late = record h { timer = t }

        P : Hid → Uart → Type 0
        P = Sent cs (queued (text_info cs dev_type stack) u b rest (dev_type ∷ cs) before)

    -- With no text yet and a free buffer of the port, reports for at most 127 characters and then
    -- one for the return key lead to one frame in the port's list, with the text behind the
    -- device's type, and the next text starts empty.
    pub typed-return :
        (rs : List (ℕ × List ℕ)) (cs : List ℕ) (c : ℕ) (w : List ℕ) (h : Hid) (u : Uart)
        → Types rs cs
        → length cs ≤ 127
        → key_of w ≡ some 13
        → Holds [] old dev_type h
        → u.free ≡ b ∷ rest
        → (u.formats b).cmd.payload ≡ before
        → Yields
            (Sent cs (queued (text_info cs dev_type stack) u b rest (dev_type ∷ cs) before))
            (on_reports stack rs h u >>= (λ (h', u'). on_report stack c (arrives c w h') u'))
    typed-return rs cs c w h u t l k v f e =
        Yields-bind (λ h' u'. Holds cs old dev_type h' × (u' ≡ u))
          (Sent cs (queued (text_info cs dev_type stack) u b rest (dev_type ∷ cs) before))
          (on_reports stack rs h u) (λ h' u'. on_report stack c (arrives c w h') u')
          (typed stack old dev_type room rs cs [] h u t v (omega arith))
          (λ h' u' (v', q). rw q (on_report-return cs c w h' u k v' l f e))

    -- With no text yet and a free buffer of the port, reports for one to 127 characters and then a
    -- round without a message, ten milliseconds or more after the last, lead to one frame in the
    -- port's list, with the text behind the device's type, and the next text starts empty.
    pub typed-silence :
        (rs : List (ℕ × List ℕ)) (cs : List ℕ) (t : ℕ) (h : Hid) (u : Uart)
        → Types rs cs
        → 0 < length cs
        → length cs ≤ 127
        → 10 ≤ t
        → Holds [] old dev_type h
        → u.free ≡ b ∷ rest
        → (u.formats b).cmd.payload ≡ before
        → Yields (Sent cs (queued (text_info cs dev_type stack) u b rest (dev_type ∷ cs) before)) (
            on_reports stack rs h u >>= (λ (h', u'). on_silence stack (record h' { timer = t }) u'))
    typed-silence rs cs t h u ty p l ten v f e =
        Yields-bind (λ h' u'. Holds cs old dev_type h' × (u' ≡ u))
          (Sent cs (queued (text_info cs dev_type stack) u b rest (dev_type ∷ cs) before))
          (on_reports stack rs h u) (λ h' u'. on_silence stack (record h' { timer = t }) u')
          (typed stack old dev_type room rs cs [] h u ty v (omega arith))
          (λ h' u' (v', q). rw q (on_silence-flush cs t h' u ten p v' l f e))
