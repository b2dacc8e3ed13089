-- ===== src/Uart/Reply/Status.antt =====
-- The answer to the status query, `que_sta_rsp` of uart/uart_protocol.c.
use multi_port_convertor.Base.{
  ℕ, zero, suc, ◌+◌, ◌-◌, ◌*◌, ◌≤◌, ◌<◌, ◌≡◌, refl, ap, ◌∙◌, Bool-cases, inl, inr, true, false,
  List, [], ◌∷◌, ◌++◌, arith, dec_lt, Outcome, done, faults, ltb, leb, if◌then◌else◌, length,
  length-append, length-replicate, replicate, append-nil, append_assoc, get_or-append_length, fetch,
  fetch-done, ◌>>=◌,
}
use multi_port_convertor.Uart.Frame.{CmdFormat, frame_len}
use multi_port_convertor.Uart.State.{NetState}
use multi_port_convertor.Uart.Reply.{Response, net_bytes, add_bytes, que_from, que_sta_rsp}
use multi_port_convertor.Uart.Reply.Fill.{filled, add_bytes-filled, add_bytes-faults}

-- The states of the ports that are asked for, in order; other numbers are passed over.
abbrev pub status_bytes : (ℕ → NetState) → List ℕ → List ℕ
status_bytes net [] = []
status_bytes net (p ∷ ps) =
    let rest = status_bytes net ps in if ltb p 4 then net_bytes (net p) ++ rest else rest

-- The answer where it fits into the array, and a write past the array where it does not.
abbrev pub fits_or_faults : List ℕ → List ℕ → Outcome Response
fits_or_faults out old = if leb (length out) (length old) then done (filled out old) else faults

step-skip :
    (net : ℕ → NetState) (cmd : CmdFormat) (p n i : ℕ) (r : Response)
    → fetch cmd.payload i ≡ done p
    → ltb p 4 ≡ false
    → que_from net cmd (suc n) i r ≡ que_from net cmd n (i + 1) r
unfolding que_from
step-skip net cmd p n i r f e = rw (f, e)

step-take :
    (net : ℕ → NetState) (cmd : CmdFormat) (p n i : ℕ) (r : Response)
    → fetch cmd.payload i ≡ done p
    → ltb p 4 ≡ true
    → que_from net cmd (suc n) i r
      ≡ (add_bytes (net_bytes (net p)) r >>= λ r'. que_from net cmd n (i + 1) r')
unfolding que_from
step-take net cmd p n i r f e = rw (f, e)

module _ (net : ℕ → NetState) (cmd : CmdFormat) (old : List ℕ) (room : length old < 65536) where
  add_bytes-next :
      (src rest out : List ℕ) (next : Response → Outcome Response)
      → length out ≤ length old
      → (length (out ++ src) ≤ length old
          → next (filled (out ++ src) old) ≡ fits_or_faults ((out ++ src) ++ rest) old)
      → (add_bytes src (filled out old) >>= next) ≡ fits_or_faults (out ++ (src ++ rest)) old
  add_bytes-next src rest out next h ih = elim (dec_lt (length old) (length out + length src)) [
    | yes b ↦
        rw (add_bytes-faults src out old h b)
          (ground (arith, length-append out (src ++ rest), length-append src rest))
    | no b ↦
        rw (add_bytes-filled src out old (omega arith) room)
          (ih (omega (arith, length-append out src)) ∙ rw (append_assoc out src rest))
  ]

  que_from-filled :
      (before ps after out : List ℕ)
      → cmd.payload ≡ before ++ (ps ++ after)
      → length out ≤ length old
      → que_from net cmd (length ps) (length before) (filled out old)
        ≡ fits_or_faults (out ++ status_bytes net ps) old
  unfolding que_from
  que_from-filled before [] after out e h = ground (arith, append-nil out)
  que_from-filled before (p ∷ ps) after out e h =
      let f : fetch cmd.payload (length before) ≡ done p = rw e (
        fetch-done _ (length before) (omega (arith, length-append before (p ∷ (ps ++ after))))
        ∙ ap done (get_or-append_length before (ps ++ after) p 0)) in
      let e' : cmd.payload ≡ (before ++ (p ∷ [])) ++ (ps ++ after) = rw append_assoc e in
      let n : length before + 1 ≡ length (before ++ (p ∷ [])) =
        omega (arith, length-append before (p ∷ [])) in
      let ih = λ (out' : List ℕ) (h' : length out' ≤ length old).
        que_from-filled (before ++ (p ∷ [])) ps after out' e' h' in
      elim (Bool-cases (ltb p 4)) [
        | inr e ↦
            step-skip net cmd p (length ps) (length before) (filled out old) f e
            ∙ rw (n, e) (ih out h)
        | inl e ↦
            step-take net cmd p (length ps) (length before) (filled out old) f e
            ∙ rw (n, e)
                (add_bytes-next (net_bytes (net p)) (status_bytes net ps) out _ h
                  (ih (out ++ net_bytes (net p))))
      ]

-- `que_sta_rsp` answers a query with the three bytes of each known port that is asked for, in the
-- query's order, where they fit into the 129 bytes of data, and writes past them where they do not.
pub que_sta_rsp-status :
    (net : ℕ → NetState) (cmd : CmdFormat) (ports after old : List ℕ)
    → cmd.payload ≡ ports ++ after
    → frame_len cmd ≡ length ports + 4
    → length old ≡ 129
    → que_sta_rsp net cmd (record { payload = old; len = 0 })
      ≡ fits_or_faults (status_bytes net ports) old
unfolding que_sta_rsp
que_sta_rsp-status net cmd ports after old e l o =
    let n : frame_len cmd - 4 ≡ length ports = omega arith in
    rw n (que_from-filled net cmd old (omega arith) [] ports after [] e (omega arith))

length-status_bytes :
    (net : ℕ → NetState) (p : ℕ) (n : ℕ) → p < 4 → length (status_bytes net (replicate n p)) ≡ 3 * n
length-status_bytes net p zero h = refl
length-status_bytes net p (suc n) h = ground (arith, length-status_bytes net p n)

-- A query for 44 times a known port, or more, makes `que_sta_rsp` write past the 129 bytes of data.
pub que_sta_rsp-overflow :
    (net : ℕ → NetState) (cmd : CmdFormat) (n p : ℕ) (after old : List ℕ)
    → 43 < n
    → p < 4
    → cmd.payload ≡ replicate n p ++ after
    → frame_len cmd ≡ n + 4
    → length old ≡ 129
    → que_sta_rsp net cmd (record { payload = old; len = 0 }) ≡ faults
que_sta_rsp-overflow net cmd n p after old h k e l o =
    que_sta_rsp-status net cmd (replicate n p) after old e (omega (arith, length-replicate n p)) o
    ∙ ground (arith, length-status_bytes net p n)
