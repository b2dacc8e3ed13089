-- ===== src/Net/Detect.antt =====
-- `net_detect_tsk` of net/net.c: whether the cable and the wireless network are connected.
pub mod States
use multi_port_convertor.Base.{
  Outcome, done, exits, ◌>>=◌, ◌>>◌, ℕ, Bool, true, false, List, [], ◌∷◌, ltb, ◌==◌, if◌then◌else◌,
  get_or, map,
}
use multi_port_convertor.Uart.State.{NetState}

abbrev pub Net : Type 0
Net = ℕ → NetState

-- `net_state[i].course = c` and `net_state[i].err = e`
abbrev pub set_course : ℕ → ℕ → Net → Net
set_course i c net = λ j. if j == i then record (net j) { course = c } else net j

abbrev pub set_error : ℕ → ℕ → Net → Net
set_error i e net = λ j. if j == i then record (net j) { err = e } else net j

-- `strcmp(s, t) >= 0`, for texts without their NUL.
unfoldable pub at_least : List ℕ → List ℕ → Bool
at_least s [] = true
at_least [] (d ∷ t) = false
at_least (c ∷ s) (d ∷ t) = let rest = at_least s t in if c == d then rest else ltb d c

-- The wait for an address: what the calls of `check_dhcp_state` return, with 0 for success. Where
-- none succeeds, the task is still waiting, which is false.
unfoldable pub wait_dhcp : List ℕ → Bool
wait_dhcp [] = false
wait_dhcp (ret ∷ rets) = let later = wait_dhcp rets in if ret == 0 then true else later

-- The port `i` is connected.
abbrev pub connected : ℕ → List ℕ → Net → Bool × Net
connected i rets net =
    let up = set_course i 1 net in if wait_dhcp rets then (true, set_course i 2 up) else (false, up)

abbrev pub disconnected : ℕ → Net → Bool × Net
disconnected i net = (true, set_error i 1 (set_course i 0 net))

-- The cable: `buf` is what `devmem 0x10110080` prints.
unfoldable pub check_cable : (buf : List ℕ) → (rets : List ℕ) → Net → Bool × Net
unfolding wait_dhcp
check_cable buf rets net =
    if get_or buf 3 0 == b'3'
    then connected 0 rets net
    else if get_or buf 3 0 == b'1'
    then disconnected 0 net
    else (true, net)

-- The wireless network: `buf` is what `ap_client` prints.
unfoldable pub check_wifi : (buf : List ℕ) → (rets : List ℕ) → Net → Bool × Net
unfolding wait_dhcp at_least
check_wifi buf rets net =
    if at_least buf (b'o' ∷ b'k' ∷ [])
    then connected 1 rets net
    else if at_least buf (b'n' ∷ b'o' ∷ [])
    then disconnected 1 net
    else (true, net)

-- One round of the task. The first result is false where it still waits for an address.
unfoldable pub detect_round : (cable cable_rets wifi wifi_rets : List ℕ) → Net → Bool × Net
unfolding check_cable check_wifi
detect_round cable cable_rets wifi wifi_rets net =
    let (done_cable, net') = check_cable cable cable_rets net in
    if done_cable then check_wifi wifi wifi_rets net' else (false, net')

-- `udp_socket_create` of net/udp.c: whether `socket` gives a socket. What `setsockopt` returns
-- changes nothing that is modelled.
abbrev pub udp_socket_create : (made : Bool) → Outcome (Unit {0})
udp_socket_create true = done tt
udp_socket_create false = exits

-- `check_dhcp_state` of net/udp.c: whether `ioctl` gives an address. -1 is its 32-bit pattern.
abbrev pub check_dhcp_state : (has_address : Bool) → ℕ
check_dhcp_state true = 0
check_dhcp_state false = 4294967295

-- What a round meets: what the two commands print, and whether there is an address at each check.
pub record Reading : Type 0 where
  pub cable : List ℕ
  pub cable_address : List Bool
  pub wifi : List ℕ
  pub wifi_address : List Bool

-- The rounds of the task, until one waits for an address that does not come.
unfoldable pub detect_rounds : List Reading → Net → Net
unfolding detect_round
detect_rounds [] net = net
detect_rounds (r ∷ rs) net =
    let (finished, net') =
      detect_round r.cable (map check_dhcp_state r.cable_address) r.wifi
        (map check_dhcp_state r.wifi_address) net in
    let later = detect_rounds rs net' in if finished then later else net'

-- `net_detect_tsk`
unfoldable pub net_detect : (made : Bool) → List Reading → Net → Outcome Net
unfolding detect_rounds
net_detect made rs net = udp_socket_create made >> done (detect_rounds rs net)
