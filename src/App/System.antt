-- ===== src/App/System.antt =====
-- app/system.c: the start of the variables that all parts share.
pub mod Starting
use multi_port_convertor.Base.{
  ℕ, Bool, true, false, List, [], ◌∷◌, ◌++◌, Option, none, some, Outcome, done, ◌>>=◌, ◌==◌,
  if◌then◌else◌, copy,
}
use multi_port_convertor.Tool.KeyFile.{
  Glib, Settings, key_file_open, key_file_get_string, key_file_close,
}
use multi_port_convertor.Uart.State.{SystemInfo, NetState}
use multi_port_convertor.Net.Http.{Cjson, Exchange, Online, get_time_url}
use multi_port_convertor.Net.Clock.{Clock, TmFields, get_time_parse}

-- "/home/root/system.conf"
abbrev pub conf_name : List ℕ
conf_name =
    b'/' ∷ b'h' ∷ b'o' ∷ b'm' ∷ b'e' ∷ b'/' ∷ b'r' ∷ b'o' ∷ b'o' ∷ b't' ∷ b'/' ∷ b's' ∷ b'y' ∷ b's'
    ∷ b't' ∷ b'e' ∷ b'm' ∷ b'.' ∷ b'c' ∷ b'o' ∷ b'n' ∷ b'f' ∷ []

-- "cloud_set"
abbrev pub cloud_set : List ℕ
cloud_set = b'c' ∷ b'l' ∷ b'o' ∷ b'u' ∷ b'd' ∷ b'_' ∷ b's' ∷ b'e' ∷ b't' ∷ []

-- "domain"
abbrev pub domain : List ℕ
domain = b'd' ∷ b'o' ∷ b'm' ∷ b'a' ∷ b'i' ∷ b'n' ∷ []

-- "120.92.2.162"
abbrev pub default_domain : List ℕ
default_domain =
    b'1' ∷ b'2' ∷ b'0' ∷ b'.' ∷ b'9' ∷ b'2' ∷ b'.' ∷ b'2' ∷ b'.' ∷ b'1' ∷ b'6' ∷ b'2' ∷ []

-- `get_domain_name`: the array `g_domain` and the variable of tool/key_file.c.
unfoldable pub get_domain_name :
    {F : Type 0} → Glib F → List ℕ → Settings F → Outcome (List ℕ × Settings F)
get_domain_name glib g_domain s =
    let (opened, s1) = key_file_open glib conf_name s in
    let missing = (do d ← copy g_domain 0 (default_domain ++ (0 ∷ [])); done (d, s1)) in
    let present = (do
      d ← key_file_get_string glib g_domain cloud_set domain default_domain s1
      s2 ← key_file_close glib s1
      done (d, s2)) in
    if opened then present else missing

-- What the calls in `get_sys_mac` meet: `socket` fails, `ioctl` fails, or it gives the address.
pub data Hardware : Type 0 where
  no_socket no_address : Hardware
  address : List ℕ → Hardware

-- `get_sys_mac`: its result, and the variable.
unfoldable pub get_sys_mac : Hardware → SystemInfo → ℕ × SystemInfo
get_sys_mac no_socket sys = (2, sys)
get_sys_mac no_address sys = (3, sys)
get_sys_mac (address bytes) sys = (0, record sys { mac = bytes })

-- The variables that the start writes.
pub record Shared (F : Type 0) : Type 0 where
  pub settings : Settings F
  pub clock : Clock
  pub online : Online

-- `net_state` behind the `memset` and the five assignments.
abbrev pub first_states : ℕ → NetState
first_states i = record { state = i; course = 0; err = if i == 3 then 1 else 0 }

module _ {Item F : Type 0} (json : Cjson Item) (glib : Glib F) (mktime : TmFields → ℕ)
    (stack : ℕ → ℕ) where
  -- `sys_context_init`; `handle` and `exchange` are what libcurl meets.
  unfoldable pub sys_context_init :
      Hardware → (handle : Bool) → Exchange → Shared F → Outcome (Shared F)
  unfolding get_sys_mac
  sys_context_init hardware handle exchange w = do
    (d, s) ← get_domain_name glib w.online.g_domain w.settings
    let (ret, sys) = get_sys_mac hardware w.clock.sys
    (r, clock, online) ←
        get_time_url (get_time_parse json mktime stack) handle exchange
          (record (w.clock) { sys = sys }) (record (w.online) { g_domain = d })
    done (record {
      settings = s;
      clock = record clock { sys = record (clock.sys) { poweron = 0 } };
      online = record online { net = first_states };
    })
