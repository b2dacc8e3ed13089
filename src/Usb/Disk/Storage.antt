-- ===== src/Usb/Disk/Storage.antt =====
-- `GetStorageInfo` of usb/udisk.c: the sizes of a disk, in units of 1024 bytes.
use multi_port_convertor.Base.{
  ℕ, ◌*◌, ◌/◌, ◌%◌, ◌^◌, ◌≤◌, ◌<◌, ◌≡◌, refl, Bool, true, false, arith, Option, none, some, u32,
}

-- What `statfs` gives: the blocks, those that are free, and the size of a block.
pub record StatFs : Type 0 where
  pub f_blocks : ℕ
  pub f_bfree : ℕ
  pub f_frsize : ℕ

-- A product of `__u64`, shifted by 10 and stored in a `__u32`.
abbrev pub kilobytes : ℕ → ℕ → ℕ
kilobytes blocks size = u32 (blocks * size % 2 ^ 64 / 2 ^ 10)

-- The function: whether it returns 0, and the two variables, which keep what they hold where `statfs`
-- fails.
unfoldable pub get_storage_info : Option StatFs → (all left : ℕ) → Bool × ℕ × ℕ
get_storage_info none all left = (false, all, left)
get_storage_info (some s) all left =
    (true, kilobytes s.f_blocks s.f_frsize, kilobytes s.f_bfree s.f_frsize)

exact : (n : ℕ) → n < 2 ^ 42 → n % 2 ^ 64 / 2 ^ 10 % 4294967296 ≡ n / 2 ^ 10
exact n h = omega arith

smaller : (a b c : ℕ) → a ≤ b → a * c ≤ b * c
smaller a b c h = grind arith

-- For a disk of less than 4 terabytes, with no more free blocks than blocks, `GetStorageInfo` gives
-- both sizes in units of 1024 bytes, rounded down, without a wrap-around; the free size is at most
-- the whole.
pub get_storage_info-exact :
    (s : StatFs) (all left : ℕ)
    → s.f_bfree ≤ s.f_blocks
    → s.f_blocks * s.f_frsize < 2 ^ 42
    → (get_storage_info (some s) all left
        ≡ (true, s.f_blocks * s.f_frsize / 2 ^ 10, s.f_bfree * s.f_frsize / 2 ^ 10))
      × (s.f_bfree * s.f_frsize / 2 ^ 10 ≤ s.f_blocks * s.f_frsize / 2 ^ 10)
unfolding get_storage_info
get_storage_info-exact s all left f h =
    let k = smaller s.f_bfree s.f_blocks s.f_frsize f in
    let a = exact (s.f_blocks * s.f_frsize) h in
    let b = exact (s.f_bfree * s.f_frsize) (omega (arith, k)) in (rw (a, b) refl, omega (arith, k))
