-- ===== src/Net/Detect/States.antt =====
-- How the states of the ports develop over the rounds of `net_detect_tsk` in net/net.c.
use multi_port_convertor.Base.{
  ℕ, ◌≡◌, ◌≢◌, refl, ap, ◌∙◌, Bool, true, false, ◌||◌, Bool-cases, inl, inr, List, [], ◌∷◌, arith,
  ◌==◌, if◌then◌else◌, get_or, map, done,
}
use mathlib.Core.Path.{subst}
use multi_port_convertor.Uart.State.{NetState}
use multi_port_convertor.Net.Detect.{
  Net, at_least, wait_dhcp, check_cable, check_wifi, detect_round, Reading, check_dhcp_state,
  detect_rounds, net_detect,
}

-- What a reading says of a port.
pub data Signal : Type 0 where
  up lost nothing : Signal

-- The fourth character of what `devmem` prints: 3 for a cable, 1 for none.
abbrev pub cable_signal : Reading → Signal
cable_signal r =
    if get_or r.cable 3 0 == b'3' then up else if get_or r.cable 3 0 == b'1' then lost else nothing

-- What `ap_client` prints, in the order of `strcmp`.
abbrev pub wifi_signal : Reading → Signal
wifi_signal r =
    if at_least r.wifi (b'o' ∷ b'k' ∷ [])
    then up
    else if at_least r.wifi (b'n' ∷ b'o' ∷ [])
    then lost
    else nothing

-- What becomes of the state of the port: with a connection its course is 2, and without one it is 0 and
-- the port has an error.
abbrev pub after_signal : Signal → NetState → NetState
after_signal up s = record s { course = 2 }
after_signal lost s = record s { course = 0; err = 1 }
after_signal nothing s = s

abbrev any : List Bool → Bool
any [] = false
any (b ∷ bs) = b || any bs

-- Each wait for an address ends: a port that is connected gets one at some check.
abbrev pub HaveAddresses : List Reading → Type 0
HaveAddresses [] = Unit
HaveAddresses (r ∷ rs) =
    (cable_signal r ≡ up → any r.cable_address ≡ true)
    × (wifi_signal r ≡ up → any r.wifi_address ≡ true)
    × HaveAddresses rs

wait_dhcp-any : (bs : List Bool) → any bs ≡ true → wait_dhcp (map check_dhcp_state bs) ≡ true
unfolding wait_dhcp
wait_dhcp-any [] e = cc
wait_dhcp-any (true ∷ bs) e = refl
wait_dhcp-any (false ∷ bs) e = wait_dhcp-any bs e

-- The step of one port.
record IsStep (i : ℕ) (s : Signal) (net : Net) (out : Bool × Net) : Type 0 where
  ends : out.0 ≡ true
  here : out.1 i ≡ after_signal s (net i)
  elsewhere : (j : ℕ) → j ≢ i → out.1 j ≡ net j

module _ (r : Reading) (net : Net) where
  check_cable-IsStep :
      (cable_signal r ≡ up → any r.cable_address ≡ true)
      → IsStep 0
          (cable_signal r)
          net
          (check_cable r.cable (map check_dhcp_state r.cable_address) net)
  unfolding check_cable
  check_cable-IsStep e = elim (Bool-cases (get_or r.cable 3 0 == b'3')) [
    | inl y ↦
        rw (y, wait_dhcp-any r.cable_address (e (rw y refl)))
          (record { ends = refl; here = refl; elsewhere = λ j n. ground arith })
    | inr n ↦ rw n (elim (Bool-cases (get_or r.cable 3 0 == b'1')) [
      | inl y ↦ rw y (record { ends = refl; here = refl; elsewhere = λ j n. ground arith })
      | inr n ↦ rw n (record { ends = refl; here = refl; elsewhere = λ j n. refl })
    ])
  ]

  check_wifi-IsStep :
      (wifi_signal r ≡ up → any r.wifi_address ≡ true)
      → IsStep 1 (wifi_signal r) net (check_wifi r.wifi (map check_dhcp_state r.wifi_address) net)
  unfolding check_wifi
  check_wifi-IsStep e = elim (Bool-cases (at_least r.wifi (b'o' ∷ b'k' ∷ []))) [
    | inl y ↦
        rw (y, wait_dhcp-any r.wifi_address (e (rw y refl)))
          (record { ends = refl; here = refl; elsewhere = λ j n. ground arith })
    | inr n ↦ rw n (elim (Bool-cases (at_least r.wifi (b'n' ∷ b'o' ∷ []))) [
      | inl y ↦ rw y (record { ends = refl; here = refl; elsewhere = λ j n. ground arith })
      | inr n ↦ rw n (record { ends = refl; here = refl; elsewhere = λ j n. refl })
    ])
  ]

-- The course is that of the last reading that says anything.
abbrev pub last_course : List Signal → ℕ → ℕ
last_course [] c = c
last_course (up ∷ ss) c = last_course ss 2
last_course (lost ∷ ss) c = last_course ss 0
last_course (nothing ∷ ss) c = last_course ss c

abbrev pub any_lost : List Signal → Bool
any_lost [] = false
any_lost (up ∷ ss) = any_lost ss
any_lost (lost ∷ ss) = true
any_lost (nothing ∷ ss) = any_lost ss

-- What the readings make of a port: one lost connection is an error for good.
pub record IsShown (ss : List Signal) (before after : NetState) : Type 0 where
  pub course : after.course ≡ last_course ss before.course
  pub err : after.err ≡ (if any_lost ss then 1 else before.err)
  pub state : after.state ≡ before.state

IsShown-after :
    (s : Signal) (ss : List Signal) (before after : NetState)
    → IsShown ss (after_signal s before) after
    → IsShown (s ∷ ss) before after
IsShown-after up ss before after h = record { course = h.course; err = h.err; state = h.state }
IsShown-after nothing ss before after h = record { course = h.course; err = h.err; state = h.state }
IsShown-after lost ss before after h = record {
  course = h.course;
  err = h.err ∙ elim (Bool-cases (any_lost ss)) [ inl y ↦ rw y refl | inr n ↦ rw n refl ];
  state = h.state;
}

-- The ports behind the rounds.
pub record Detected (rs : List Reading) (before after : Net) : Type 0 where
  pub cable : IsShown (map cable_signal rs) (before 0) (after 0)
  pub wifi : IsShown (map wifi_signal rs) (before 1) (after 1)
  pub others : (i : ℕ) → i ≢ 0 → i ≢ 1 → after i ≡ before i

-- A round, where both waits end.
record Round (r : Reading) (before : Net) (out : Bool × Net) : Type 0 where
  ends : out.0 ≡ true
  cable : out.1 0 ≡ after_signal (cable_signal r) (before 0)
  wifi : out.1 1 ≡ after_signal (wifi_signal r) (before 1)
  others : (i : ℕ) → i ≢ 0 → i ≢ 1 → out.1 i ≡ before i

detect_round-Round :
    (r : Reading) (net : Net)
    → (cable_signal r ≡ up → any r.cable_address ≡ true)
    → (wifi_signal r ≡ up → any r.wifi_address ≡ true)
    → Round r net (
        detect_round r.cable
          (map check_dhcp_state r.cable_address)
          r.wifi
          (map check_dhcp_state r.wifi_address)
          net)
unfolding detect_round
detect_round-Round r net a b =
    let out = check_cable r.cable (map check_dhcp_state r.cable_address) net in
    let one = check_cable-IsStep r net a in
    let two = check_wifi-IsStep r out.1 b in
    rw one.ends (record {
      ends = two.ends;
      cable = two.elsewhere 0 (λ e. absurd (omega arith)) ∙ one.here;
      wifi =
          two.here
          ∙ ap (after_signal (wifi_signal r)) (one.elsewhere 1 (λ e. absurd (omega arith)));
      others = λ i m n. two.elsewhere i n ∙ one.elsewhere i m;
    })

detect_rounds-Detected :
    (rs : List Reading) (net : Net) → HaveAddresses rs → Detected rs net (detect_rounds rs net)
unfolding detect_rounds
detect_rounds-Detected [] net h =
    let same : (s : NetState) → IsShown [] s s =
      λ s. record { course = refl; err = refl; state = refl } in
    record { cable = same (net 0); wifi = same (net 1); others = λ i m n. refl }
detect_rounds-Detected (r ∷ rs) net h =
    let one = detect_round-Round r net h.0 h.1 in
    let out =
      detect_round r.cable (map check_dhcp_state r.cable_address) r.wifi
        (map check_dhcp_state r.wifi_address) net in
    let later = detect_rounds-Detected rs out.1 h.2 in
    rw one.ends (record {
      cable = IsShown-after (cable_signal r) (map cable_signal rs) _ _ (
          subst (λ s. IsShown (map cable_signal rs) s (detect_rounds rs out.1 0)) one.cable
            later.cable);
      wifi = IsShown-after (wifi_signal r) (map wifi_signal rs) _ _ (
          subst (λ s. IsShown (map wifi_signal rs) s (detect_rounds rs out.1 1)) one.wifi
            later.wifi);
      others = λ i m n. later.others i m n ∙ one.others i m n;
    })

-- Where the socket is made, and each port that a reading shows as connected gets an address at some
-- check: `net_detect_tsk` goes through all of its rounds. Behind them, the course of the cable and
-- of the wireless network is 2 or 0 as the last reading that says anything showed a connection or
-- none, and the one before where none says anything; each has the error 1 if any reading showed no
-- connection, also where it came back, and else the error before. Nothing else of the ports has
-- changed.
pub net_detect-Detected :
    (rs : List Reading) (net : Net)
    → HaveAddresses rs
    → (after : Net) × (net_detect true rs net ≡ done after) × Detected rs net after
unfolding net_detect
net_detect-Detected rs net h = (detect_rounds rs net, refl, detect_rounds-Detected rs net h)
