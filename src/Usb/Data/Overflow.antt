-- ===== src/Usb/Data/Overflow.antt =====
-- More keys than the array of usb/usb_communicat.c for the text has room for.
use multi_port_convertor.Base.{
  ℕ, ◌+◌, ◌<◌, ◌≤◌, ◌≡◌, ◌≢◌, ap, List, [], ◌∷◌, ◌++◌, arith, some, faults, put, length,
  length-append, length-drop, drop, dec_lt,
}
use multi_port_convertor.Uart.State.{Uart}
use multi_port_convertor.Usb.Data.{Hid, key_of, on_key, on_report}
use multi_port_convertor.Usb.Data.Typing.{
  Holds, Types, on_reports, arrives, typed_one, Yields-faults,
}

module _ (stack old : List ℕ) (dev_type : ℕ) (room : length old ≡ 128) where
  past_end :
      (out : List ℕ) (b : ℕ) (w : List ℕ) (rs : List (ℕ × List ℕ)) (c : ℕ) (h : Hid) (u : Uart)
      → Holds out old dev_type h
      → length out ≡ 128
      → key_of w ≡ some c
      → c ≢ 13
      → on_reports stack ((b, w) ∷ rs) h u ≡ faults
  unfolding on_reports on_report on_key put
  past_end out b w rs c h u v l k n =
      ground (arith, length-append out (drop (length out) old), length-drop (length out) old)

  -- Reports for characters that make up more than 128 with those of the text so far, without a
  -- return key, write past the array of the text.
  pub on_reports-overflow :
      (rs : List (ℕ × List ℕ)) (cs out : List ℕ) (h : Hid) (u : Uart)
      → Types rs cs
      → Holds out old dev_type h
      → length out ≤ 128
      → 128 < length out + length cs
      → on_reports stack rs h u ≡ faults
  unfolding on_reports
  on_reports-overflow [] cs out h u t v l m = absurd (omega (arith, ap (λ xs. length xs) t))
  on_reports-overflow ((b, w) ∷ rs) [] out h u t v l m = absurd t
  on_reports-overflow ((b, w) ∷ rs) (c ∷ cs) out h u (k, n, t) v l m =
      elim (dec_lt (length out) 128) [
        | yes p ↦
            Yields-faults (λ h' u'. Holds (out ++ (c ∷ [])) old dev_type h' × (u' ≡ u))
              (on_report stack b (arrives b w h) u) (λ h' u'. on_reports stack rs h' u')
              (typed_one stack old dev_type room out b w c h u v p k n)
              (λ h' u' (v', _).
                on_reports-overflow rs cs (out ++ (c ∷ [])) h' u' t v'
                  (omega (arith, length-append out (c ∷ [])))
                  (omega (arith, length-append out (c ∷ []))))
        | no np ↦ past_end out b w rs c h u v (omega arith) k n
      ]
