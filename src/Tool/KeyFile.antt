-- ===== src/Tool/KeyFile.antt =====
-- tool/key_file.h and tool/key_file.c: a settings file, over the key files of GLib, which the
-- repository does not hold. The file is kept in a static variable between the calls.
use multi_port_convertor.Base.{
  ℕ, Bool, true, false, List, [], ◌∷◌, ◌++◌, Option, none, some, Outcome, done, faults, ◌>>=◌, copy,
  ◌==◌, if◌then◌else◌,
}

-- The calls of GLib on a `GKeyFile`, of which `F` is the type. `load_from_data` stands for what
-- `g_key_file_load_from_file` makes of the bytes of a file; a result `none` is an error. An integer
-- is its pattern of 32 bits.
pub record Glib (F : Type 0) : Type 0 where
  pub load_from_data : List ℕ → Option F
  pub to_data : F → List ℕ
  pub get_integer : F → (group key : List ℕ) → Option ℕ
  pub get_string : F → (group key : List ℕ) → Option (List ℕ)
  pub set_integer : F → (group key : List ℕ) → ℕ → F
  pub set_string : F → (group key : List ℕ) → List ℕ → F

-- What the variable `keyfile` points to; `freed` is an object that has been freed.
pub data Handle (F : Type 0) : Type 0 where
  null : Handle F
  live : F → Handle F
  freed : Handle F

-- The variable, and the files by their names.
pub record Settings (F : Type 0) : Type 0 where
  pub keyfile : Handle F
  pub files : List ℕ → Option (List ℕ)

unfoldable pub same_text : List ℕ → List ℕ → Bool
same_text [] [] = true
same_text [] (d ∷ t) = false
same_text (c ∷ s) [] = false
same_text (c ∷ s) (d ∷ t) = let rest = same_text s t in if c == d then rest else false

module _ {F : Type 0} (glib : Glib F) where
  open glib use {load_from_data, to_data, get_integer, get_string, set_integer, set_string}

  abbrev pub load : Option (List ℕ) → Option F
  load none = none
  load (some bytes) = load_from_data bytes

  abbrev pub keep : Option F → Settings F → Bool × Settings F
  keep none s = (false, record s { keyfile = freed })
  keep (some f) s = (true, record s { keyfile = live f })

  -- `key_file_open`: true where it returns 0. Where the file does not load, the object that was made
  -- for it is freed and the variable still points to it.
  unfoldable pub key_file_open : List ℕ → Settings F → Bool × Settings F
  key_file_open filename s = keep (load (s.files filename)) s

  -- A call of GLib on the variable. NULL is refused with a warning, and gives `other`.
  abbrev pub on_keyfile : {A : Type 0} → Handle F → (other : A) → (F → A) → Outcome A
  on_keyfile null other f = done other
  on_keyfile (live k) other f = done (f k)
  on_keyfile freed other f = faults

  -- `key_file_close`
  unfoldable pub key_file_close : Settings F → Outcome (Settings F)
  key_file_close s = on_keyfile s.keyfile s (λ f. record s { keyfile = freed })

  -- `key_file_save`; `written` says whether `g_file_set_contents` succeeds. The result is true where
  -- it returns 0. Without a key file there is nothing to write.
  unfoldable pub key_file_save :
      (written : Bool) → List ℕ → Settings F → Outcome (Bool × Settings F)
  key_file_save written filename s =
      on_keyfile s.keyfile (false, s)
        (λ f.
          if written
          then (
            true,
            record s {
              files = λ name. if same_text name filename then some (to_data f) else s.files name;
            },
          )
          else (false, s))

  abbrev pub or_default : {A : Type 0} → Option A → A → A
  or_default none d = d
  or_default (some a) d = a

  -- `key_file_get_int`
  unfoldable pub key_file_get_int : (group key : List ℕ) → ℕ → Settings F → Outcome ℕ
  key_file_get_int group key default_val s =
      on_keyfile s.keyfile 0 (λ f. or_default (get_integer f group key) default_val)

  -- `key_file_set_int`
  unfoldable pub key_file_set_int : (group key : List ℕ) → ℕ → Settings F → Outcome (Settings F)
  key_file_set_int group key val s =
      on_keyfile s.keyfile s (λ f. record s { keyfile = live (set_integer f group key val) })

  -- `key_file_set_string`
  unfoldable pub key_file_set_string :
      (group key : List ℕ) → List ℕ → Settings F → Outcome (Settings F)
  key_file_set_string group key string s =
      on_keyfile s.keyfile s (λ f. record s { keyfile = live (set_string f group key string) })

  -- The text that `key_file_get_string` copies; for NULL, GLib gives neither a text nor an error.
  abbrev pub text_of : Handle F → (group key : List ℕ) → List ℕ → Outcome (List ℕ)
  text_of null group key default_val = faults
  text_of (live f) group key default_val = done (or_default (get_string f group key) default_val)
  text_of freed group key default_val = faults

  -- `key_file_get_string`: the text and its NUL are copied to the front of the array `ret`.
  unfoldable pub key_file_get_string :
      (ret : List ℕ) → (group key : List ℕ) → List ℕ → Settings F → Outcome (List ℕ)
  key_file_get_string ret group key default_val s = do
    text ← text_of s.keyfile group key default_val
    copy ret 0 (text ++ (0 ∷ []))
