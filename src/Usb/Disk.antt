-- ===== src/Usb/Disk.antt =====
-- usb/udisk.c: a disk that is plugged in is mounted, the settings of the wireless network are read
-- from it, and when it is pulled out it is unmounted.
pub mod Texts
pub mod Rounds
pub mod Storage
pub mod Wireless
use multi_port_convertor.Base.{
  ℕ, ◌+◌, Bool, true, false, ◌||◌, List, [], ◌∷◌, ◌++◌, Option, none, some, Outcome, done, faults,
  ◌>>=◌, ◌==◌, if◌then◌else◌,
}
use multi_port_convertor.Uart.State.{Uart, NetState}
use multi_port_convertor.Uart.Notify.{err_sta_ntf, hid_insert_ntf, hid_pullout_ntf}
use multi_port_convertor.Uart.Reply.{format_alone}
use multi_port_convertor.Usb.Disk.Texts.{
  set_ssid, set_key, commit, restart, copy_from, to_home, system_conf,
}

-- `struct UDISK`
pub record Disk : Type 0 where
  pub port : ℕ
  pub state : ℕ
  pub all_capacity : ℕ
  pub left_capacity : ℕ
  pub dir : List ℕ

-- `g_udisk`, `net_state`, the port, and the shell commands that have been run, the last one first.
pub record Disks : Type 0 where
  pub g_udisk : ℕ → Disk
  pub net : ℕ → NetState
  pub uart : Uart
  pub shell : List (List ℕ)

-- "/mnt/"
abbrev pub mnt : List ℕ
mnt = b'/' ∷ b'm' ∷ b'n' ∷ b't' ∷ b'/' ∷ []

abbrev pub sd : ℕ → List ℕ
sd letter = b's' ∷ b'd' ∷ letter ∷ b'1' ∷ []

abbrev pub possible_udisk : List (List ℕ)
possible_udisk = sd b'a' ∷ sd b'b' ∷ sd b'c' ∷ []

unfoldable pub is_prefix : List ℕ → List ℕ → Bool
is_prefix [] s = true
is_prefix (d ∷ t) [] = false
is_prefix (d ∷ t) (c ∷ s) = let rest = is_prefix t s in if c == d then rest else false

-- `strstr`: does the text hold the other?
unfoldable pub strstr : List ℕ → List ℕ → Bool
unfolding is_prefix
strstr [] t = is_prefix t []
strstr (c ∷ s) t = is_prefix t (c ∷ s) || strstr s t

-- The entry of `g_udisk` for a mount point; without one the pointer is NULL or not set.
unfoldable pub entry_of : List ℕ → Outcome ℕ
unfolding strstr
entry_of mount_point =
    if strstr mount_point (sd b'a')
    then done 0
    else if strstr mount_point (sd b'b')
    then done 1
    else if strstr mount_point (sd b'c')
    then done 2
    else faults

abbrev pub put_disk : ℕ → Disk → Disks → Disks
put_disk i d s = record s { g_udisk = λ j. if j == i then d else s.g_udisk j }

-- `do_mount`: `ret` is what `mount` returns, and the capacities are those of `GetStorageInfo`.
unfoldable pub do_mount :
    (ret : ℕ) (all_capacity left_capacity : ℕ) → List ℕ → Disks → Outcome (Option ℕ × Disks)
unfolding entry_of
do_mount ret all_capacity left_capacity name s =
    let mounted = (do
      i ← entry_of (mnt ++ name)
      done (
        some i,
        put_disk i
            (record {
              port = 0;
              state = 0;
              all_capacity = all_capacity;
              left_capacity = left_capacity;
              dir = mnt ++ name;
            })
            s,
      )) in
    if ret == 0 then mounted else done (none, s)

-- `do_umount`
unfoldable pub do_umount : List ℕ → Disks → Outcome Disks
unfolding entry_of
do_umount name s = do
  i ← entry_of (mnt ++ name)
  done (put_disk i (record (s.g_udisk i) { state = 1 }) s)

abbrev pub run : List ℕ → Disks → Disks
run cmd s = record s { shell = cmd ∷ s.shell }

-- `stack` is what the arrays of the notifications hold before them.
module _ (stack : List ℕ) where
  -- `read_wifi_param`: `settings` are the name of the network and its password, or `none` where the
  -- file does not open. Both are formats of `sprintf`.
  unfoldable pub read_wifi_param : Option (List ℕ × List ℕ) → ℕ → Disks → Outcome Disks
  read_wifi_param none i s = do
    u ← err_sta_ntf stack 1 0 2 s.uart
    done (record s {
      uart = u;
      net = λ j. if j == 1 then record (s.net 1) { course = 0; err = 2 } else s.net j;
    })
  read_wifi_param (some (ssid, passwd)) i s = do
    name ← format_alone ssid
    let s1 = run (set_ssid ++ (name ++ (39 ∷ []))) s
    key ← format_alone passwd
    let s2 = run (set_key ++ (key ++ (39 ∷ []))) s1
    file ← format_alone ((s.g_udisk i).dir ++ system_conf)
    done (run (copy_from ++ (file ++ to_home)) (run restart (run commit s2)))

  -- The visit of a disk that is mounted, until it has been pulled out.
  unfoldable pub visit : Option (List ℕ × List ℕ) → List ℕ → ℕ → Disks → Outcome Disks
  unfolding read_wifi_param do_umount
  visit settings name i s = do
    u ← hid_insert_ntf stack 5 s.uart
    s1 ← read_wifi_param settings i (record s { uart = u })
    s2 ← do_umount name s1
    u2 ← hid_pullout_ntf stack 5 s2.uart
    done (record s2 { uart = u2 })

  -- The other entries follow where the disk could not be mounted.
  unfoldable pub visit_or :
      Option (List ℕ × List ℕ) → Option ℕ → List ℕ → Disks → (Disks → Outcome Disks) → Outcome Disks
  unfolding visit
  visit_or settings none name s next = next s
  visit_or settings (some i) name s next = visit settings name i s

  -- One round of `udisk_tsk` from an entry on: which device files are there, what `mount` returns for
  -- them, the capacities, and the settings on the disk.
  unfoldable pub udisk_from :
      (access mount : List ℕ → ℕ) (all_capacity left_capacity : ℕ)
      → Option (List ℕ × List ℕ)
      → List (List ℕ)
      → Disks
      → Outcome Disks
  unfolding visit_or do_mount
  udisk_from access mount all_capacity left_capacity settings [] s = done s
  udisk_from access mount all_capacity left_capacity settings (name ∷ names) s =
      let next = udisk_from access mount all_capacity left_capacity settings names in
      let found = (do
        (disk, s') ← do_mount (mount name) all_capacity left_capacity name s
        visit_or settings disk name s' next) in
      if access name == 0 then found else next s
