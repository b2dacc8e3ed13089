-- ===== src/Usb/Disk/Rounds.antt =====
-- What a round of `udisk_tsk` in usb/udisk.c leaves behind.
use multi_port_convertor.Base.{
  ℕ, ◌≡◌, refl, false, Bool-cases, inl, inr, List, [], ◌∷◌, ◌++◌, arith, Option, none, some,
  Outcome, done, exits, faults, ◌==◌, Safe, Safe-bind, always,
}
use multi_port_convertor.Uart.Notify.{err_sta_ntf, hid_insert_ntf, hid_pullout_ntf}
use multi_port_convertor.Uart.Reply.{format_alone}
use multi_port_convertor.Usb.Disk.Texts.{system_conf}
use multi_port_convertor.Usb.Disk.{
  Disks, mnt, entry_of, do_mount, do_umount, read_wifi_param, visit, visit_or, udisk_from,
}

-- No disk is mounted.
abbrev pub Unmounted : Disks → Type 0
Unmounted s = (i : ℕ) → (s.g_udisk i).state ≡ 1

-- Only the disk `i` is, and it is the one of the name.
pub record IsMounted (name : List ℕ) (i : ℕ) (s : Disks) : Type 0 where
  pub entry : entry_of (mnt ++ name) ≡ done i
  pub others : (j : ℕ) → (j == i) ≡ false → (s.g_udisk j).state ≡ 1

abbrev Mounts : List ℕ → Option ℕ × Disks → Type 0
Mounts name (none, s) = Unmounted s
Mounts name (some i, s) = IsMounted name i s

entry-cases : (o : Outcome ℕ) → Safe (λ i. o ≡ done i) o
entry-cases (done i) = refl
entry-cases exits = tt
entry-cases faults = tt

do_mount-Mounts :
    (ret all left : ℕ) (name : List ℕ) (s : Disks)
    → Unmounted s
    → Safe (Mounts name) (do_mount ret all left name s)
unfolding do_mount
do_mount-Mounts ret all left name s v = elim (Bool-cases (ret == 0)) [
  | inl e ↦ rw e (
      Safe-bind (λ i. entry_of (mnt ++ name) ≡ done i) (Mounts name) (entry_of (mnt ++ name)) _
        (entry-cases (entry_of (mnt ++ name)))
        (λ i q. record { entry = q; others = λ j n. ground (arith, v j) }))
  | inr e ↦ rw e v
]

module _ (stack : List ℕ) where
  read_wifi_param-IsMounted :
      (settings : Option (List ℕ × List ℕ)) (name : List ℕ) (i : ℕ) (s : Disks)
      → IsMounted name i s
      → Safe (IsMounted name i) (read_wifi_param stack settings i s)
  unfolding read_wifi_param
  read_wifi_param-IsMounted none name i s v =
      Safe-bind (λ _. Unit {0}) (IsMounted name i) (err_sta_ntf stack 1 0 2 s.uart) _ (always _)
        (λ u _. record { entry = v.entry; others = v.others })
  read_wifi_param-IsMounted (some (ssid, passwd)) name i s v =
      Safe-bind (λ _. Unit {0}) (IsMounted name i) (format_alone ssid) _ (always _)
        (λ a _.
          Safe-bind (λ _. Unit {0}) (IsMounted name i) (format_alone passwd) _ (always _)
            (λ b _.
              Safe-bind (λ _. Unit {0}) (IsMounted name i)
                (format_alone ((s.g_udisk i).dir ++ system_conf)) _ (always _)
                (λ c _. record { entry = v.entry; others = v.others })))

  do_umount-Unmounted :
      (name : List ℕ) (i : ℕ) (s : Disks) → IsMounted name i s → Safe Unmounted (do_umount name s)
  unfolding do_umount
  do_umount-Unmounted name i s v = rw v.entry (λ j. ground (arith, v.others j))

  visit-Unmounted :
      (settings : Option (List ℕ × List ℕ)) (name : List ℕ) (i : ℕ) (s : Disks)
      → IsMounted name i s
      → Safe Unmounted (visit stack settings name i s)
  unfolding visit
  visit-Unmounted settings name i s v =
      Safe-bind (λ _. Unit {0}) Unmounted (hid_insert_ntf stack 5 s.uart) _ (always _)
        (λ u _.
          Safe-bind (IsMounted name i) Unmounted
            (read_wifi_param stack settings i (record s { uart = u })) _
            (read_wifi_param-IsMounted settings name i (record s { uart = u })
              (record { entry = v.entry; others = v.others }))
            (λ s1 v1.
              Safe-bind Unmounted Unmounted (do_umount name s1) _ (do_umount-Unmounted name i s1 v1)
                (λ s2 v2.
                  Safe-bind (λ _. Unit {0}) Unmounted (hid_pullout_ntf stack 5 s2.uart) _ (always _)
                    (λ u2 _. v2))))

  visit_or-Unmounted :
      (settings : Option (List ℕ × List ℕ)) (disk : Option ℕ) (name : List ℕ) (s : Disks)
      (next : Disks → Outcome Disks)
      → Mounts name (disk, s)
      → ((s' : Disks) → Unmounted s' → Safe Unmounted (next s'))
      → Safe Unmounted (visit_or stack settings disk name s next)
  unfolding visit_or
  visit_or-Unmounted settings none name s next v n = n s v
  visit_or-Unmounted settings (some i) name s next v n = visit-Unmounted settings name i s v

  -- If no disk is mounted before a round of `udisk_tsk`, none is mounted in the state that the
  -- round ends with, whatever disks are there and whatever settings they hold.
  pub udisk_from-Unmounted :
      (access mount : List ℕ → ℕ) (all left : ℕ) (settings : Option (List ℕ × List ℕ))
      (names : List (List ℕ)) (s : Disks)
      → Unmounted s
      → Safe Unmounted (udisk_from stack access mount all left settings names s)
  unfolding udisk_from
  udisk_from-Unmounted access mount all left settings [] s v = v
  udisk_from-Unmounted access mount all left settings (name ∷ names) s v =
      elim (Bool-cases (access name == 0)) [
        | inl e ↦ rw e (
            Safe-bind (Mounts name) Unmounted (do_mount (mount name) all left name s) _
              (do_mount-Mounts (mount name) all left name s v)
              (λ (disk, s') w.
                visit_or-Unmounted settings disk name s'
                  (udisk_from stack access mount all left settings names) w
                  (udisk_from-Unmounted access mount all left settings names)))
        | inr e ↦ rw e (udisk_from-Unmounted access mount all left settings names s v)
      ]
