-- ===== src/Usb/Open/Paths.antt =====
-- Which device file `open_hid` of usb/usb.c opens.
use multi_port_convertor.Base.{
  ap, sym, ℕ, ◌≡◌, ◌≢◌, refl, List, [], ◌∷◌, ◌++◌, Option, none, some, arith, ◌==◌, ◌∙◌, false,
  append_assoc, append-nil, Bool-cases, inl, inr,
}
use multi_port_convertor.Usb.Open.{dev, possible_hid, do_check, open_from, open_hid}

-- No file of the list is there.
abbrev pub Missing : (List ℕ → ℕ) → List (List ℕ) → Type 0
Missing access [] = Unit
Missing access (name ∷ names) = (do_check access name ≢ 0) × Missing access names

is_missing : (c : ℕ) → c ≢ 0 → (c == 0) ≡ false
is_missing c h = ground arith

module _ (access : List ℕ → ℕ) (opens : List ℕ → Option ℕ) where
  open_from-Missing :
      (names : List (List ℕ)) (path : List ℕ) (fd : Option ℕ)
      → Missing access names
      → open_from access opens names path fd ≡ fd
  unfolding open_from
  open_from-Missing [] path fd m = refl
  open_from-Missing (name ∷ names) path fd m =
      rw (is_missing (do_check access name) m.0) (open_from-Missing names path fd m.1)

  open_from-skip :
      (before after : List (List ℕ)) (path : List ℕ) (fd : Option ℕ)
      → Missing access before
      → open_from access opens (before ++ after) path fd ≡ open_from access opens after path fd
  unfolding open_from
  open_from-skip [] after path fd m = refl
  open_from-skip (name ∷ before) after path fd m =
      rw (is_missing (do_check access name) m.0) (open_from-skip before after path fd m.1)

  -- Where the device files before one are missing, and that one is there and opens, `open_hid`
  -- returns its descriptor.
  pub open_hid-first :
      (before : List (List ℕ)) (name : List ℕ) (after : List (List ℕ)) (fd : ℕ)
      → before ++ (name ∷ after) ≡ possible_hid
      → Missing access before
      → do_check access name ≡ 0
      → opens (dev ++ name) ≡ some fd
      → open_hid access opens ≡ some fd
  unfolding open_hid open_from
  open_hid-first before name after fd e m c o =
      sym (ap (λ ns. open_from access opens ns dev (some 0)) e)
      ∙ (open_from-skip before (name ∷ after) dev (some 0) m ∙ rw (c, o) refl)

  -- `open_hid` returns 0 where all three device files are missing.
  pub open_hid-Missing : Missing access possible_hid → open_hid access opens ≡ some 0
  unfolding open_hid
  open_hid-Missing = open_from-Missing possible_hid dev (some 0)

  open_from-blocked :
      (names : List (List ℕ)) (base more : List ℕ)
      → ((m : List ℕ) → opens (base ++ m) ≡ none)
      → open_from access opens names (base ++ more) none ≡ none
  unfolding open_from
  open_from-blocked [] base more o = refl
  open_from-blocked (name ∷ names) base more o = elim (Bool-cases (do_check access name == 0)) [
    | inl e ↦
        rw (e, append_assoc base more name, o (more ++ name))
          (open_from-blocked names base (more ++ name) o)
    | inr e ↦ rw e (open_from-blocked names base more o)
  ]

  -- Where the device files before one are missing, and nothing can be opened under that one's path
  -- or a longer one, `open_hid` fails as soon as that one is there, whatever the later files are.
  pub open_hid-blocked :
      (before : List (List ℕ)) (name : List ℕ) (after : List (List ℕ))
      → before ++ (name ∷ after) ≡ possible_hid
      → Missing access before
      → do_check access name ≡ 0
      → ((more : List ℕ) → opens ((dev ++ name) ++ more) ≡ none)
      → open_hid access opens ≡ none
  unfolding open_hid open_from
  open_hid-blocked before name after e m c o =
      sym (ap (λ ns. open_from access opens ns dev (some 0)) e)
      ∙ (open_from-skip before (name ∷ after) dev (some 0) m
          ∙ rw (c, ← (append-nil (dev ++ name)), o []) (open_from-blocked after (dev ++ name) [] o))
