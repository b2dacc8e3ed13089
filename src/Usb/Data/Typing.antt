-- ===== src/Usb/Data/Typing.antt =====
-- The reports of a reader, and the text that they stand for, in usb/usb_communicat.c.
use multi_port_convertor.Base.{
  ℕ, suc, ◌+◌, ◌≤◌, ◌<◌, ◌≡◌, ◌≢◌, refl, sym, true, false, List, [], ◌∷◌, ◌++◌, arith, some,
  Outcome, done, exits, faults, ◌>>=◌, put-done, length, length-append, length-drop, drop,
  set-behind, append_assoc, append-nil, ◌==◌, if◌then◌else◌, leb,
}
use multi_port_convertor.Uart.State.{Uart}
use multi_port_convertor.Usb.Data.{Hid, hid_time_out, on_key, key_of, on_report}

-- The text so far is `out`, in the array that held `old`.
pub record Holds (out old : List ℕ) (dev_type : ℕ) (h : Hid) : Type 0 where
  pub text : h.hid_key_buf ≡ out ++ drop (length out) old
  pub count : h.hid_key_length ≡ length out
  pub device : h.hid_dev_type ≡ dev_type

-- The run ends with a state that has the property.
abbrev pub Yields : (Hid → Uart → Type 0) → Outcome (Hid × Uart) → Type 0
Yields P (done (h, u)) = P h u
Yields P exits = ⊥
Yields P faults = ⊥

-- A message for the buffer `b`, into which the reader has put the report `w`.
abbrev pub arrives : ℕ → List ℕ → Hid → Hid
arrives b w h = record h { words = λ c. if c == b then w else h.words c }

-- The task over messages that come one after the other.
unfoldable pub on_reports : List ℕ → List (ℕ × List ℕ) → Hid → Uart → Outcome (Hid × Uart)
on_reports stack [] h u = done (h, u)
on_reports stack ((b, w) ∷ rs) h u = do
  (h', u') ← on_report stack b (arrives b w h) u
  on_reports stack rs h' u'

-- The reports stand for the characters, none of which is the return key.
abbrev pub Types : List (ℕ × List ℕ) → List ℕ → Type 0
Types [] cs = cs ≡ []
Types ((b, w) ∷ rs) [] = ⊥
Types ((b, w) ∷ rs) (c ∷ cs) = (key_of w ≡ some c) × (c ≢ 13) × Types rs cs

pub Yields-bind :
    (P Q : Hid → Uart → Type 0) (o : Outcome (Hid × Uart)) (k : Hid → Uart → Outcome (Hid × Uart))
    → Yields P o
    → ((h : Hid) (u : Uart) → P h u → Yields Q (k h u))
    → Yields Q (o >>= (λ (h, u). k h u))
Yields-bind P Q (done (h, u)) k y f = f h u y
Yields-bind P Q exits k y f = absurd y
Yields-bind P Q faults k y f = absurd y

pub is_late : (t : ℕ) → 10 ≤ t → leb hid_time_out t ≡ true
is_late t h = ground arith

pub is_typed : (n : ℕ) → 0 < n → (n == 0) ≡ false
is_typed n h = ground arith

pub Yields-faults :
    (P : Hid → Uart → Type 0) (o : Outcome (Hid × Uart)) (k : Hid → Uart → Outcome (Hid × Uart))
    → Yields P o
    → ((h : Hid) (u : Uart) → P h u → k h u ≡ faults)
    → (o >>= (λ (h, u). k h u)) ≡ faults
Yields-faults P (done (h, u)) k y f = f h u y
Yields-faults P exits k y f = absurd y
Yields-faults P faults k y f = absurd y

module _ (stack old : List ℕ) (dev_type : ℕ) (room : length old ≡ 128) where
  pub typed_one :
      (out : List ℕ) (b : ℕ) (w : List ℕ) (c : ℕ) (h : Hid) (u : Uart)
      → Holds out old dev_type h
      → length out < 128
      → key_of w ≡ some c
      → c ≢ 13
      → Yields
          (λ h' u'. Holds (out ++ (c ∷ [])) old dev_type h' × (u' ≡ u))
          (on_report stack b (arrives b w h) u)
  unfolding on_report on_key
  typed_one out b w c h u v l k n = ground (
    arith,
    put-done (out ++ drop (length out) old) (length out) c,
    length-append out (drop (length out) old),
    length-drop (length out) old,
    set-behind out old c,
    length-append out (c ∷ []),
    append_assoc out (c ∷ []) (drop (suc (length out)) old),
  )

  -- Reports for characters are appended to the text, and the port sees nothing of them.
  pub typed :
      (rs : List (ℕ × List ℕ)) (cs out : List ℕ) (h : Hid) (u : Uart)
      → Types rs cs
      → Holds out old dev_type h
      → length out + length cs ≤ 127
      → Yields (λ h' u'. Holds (out ++ cs) old dev_type h' × (u' ≡ u)) (on_reports stack rs h u)
  unfolding on_reports
  typed [] cs out h u t v l = rw (t, append-nil out) (v, refl)
  typed ((b, w) ∷ rs) [] out h u t v l = absurd t
  typed ((b, w) ∷ rs) (c ∷ cs) out h u (k, n, t) v l =
      Yields-bind (λ h' u'. Holds (out ++ (c ∷ [])) old dev_type h' × (u' ≡ u))
        (λ h' u'. Holds (out ++ (c ∷ cs)) old dev_type h' × (u' ≡ u))
        (on_report stack b (arrives b w h) u) (λ h' u'. on_reports stack rs h' u')
        (typed_one out b w c h u v (omega arith) k n)
        (λ h' u' (v', e).
          rw (sym e, sym (append_assoc out (c ∷ []) cs))
            (typed rs cs (out ++ (c ∷ [])) h' u' t v' (omega (arith, length-append out (c ∷ [])))))
