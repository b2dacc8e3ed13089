-- ===== src/App/System/Starting.antt =====
-- What the start of app/system.c leaves.
use multi_port_convertor.Base.{
  ℕ, ◌+◌, ◌<◌, ◌≡◌, refl, Bool, true, false, List, [], ◌∷◌, ◌++◌, Option, none, some, done,
  Bool-cases, inl, inr, ◌==◌, arith, if◌then◌else◌, text_copied, length, drop, has,
}
use multi_port_convertor.Tool.KeyFile.{
  Glib, freed, Settings, load, or_default, key_file_open, key_file_close, key_file_get_string,
}
use multi_port_convertor.Uart.Reply.{c_string}
use multi_port_convertor.Net.Http.Url.{time_path, IsNamed, url_of-done}
use multi_port_convertor.Uart.Upload.Fields.{c_string-append}
use multi_port_convertor.Net.Http.{
  Cjson, Exchange, Online, Callback, deliver, heart_beat, get_time_url, curle_write_error,
}
use multi_port_convertor.Net.Clock.{Clock, TmFields, get_time_parse}
use multi_port_convertor.App.System.{
  conf_name, cloud_set, domain, default_domain, get_domain_name, Hardware, get_sys_mac, Shared,
  first_states, sys_context_init,
}

module _ {F : Type 0} (glib : Glib F) where
  abbrev pub domain_in : Option F → List ℕ
  domain_in none = default_domain
  domain_in (some f) = or_default glib (glib.get_string f cloud_set domain) default_domain

  -- The server's name that the settings file gives, or else that of the program.
  abbrev pub domain_text : Settings F → List ℕ
  domain_text s = domain_in (load glib (s.files conf_name))

  domain-loaded :
      (o : Option F) (array : List ℕ) (s : Settings F)
      → load glib (s.files conf_name) ≡ o
      → length (domain_in o) < length array
      → get_domain_name glib array s
        ≡ done (
          domain_in o ++ (0 ∷ drop (length (domain_in o) + 1) array),
          record s { keyfile = freed },
        )
  unfolding get_domain_name key_file_open key_file_get_string key_file_close
  domain-loaded none array s e h = rw (e, text_copied array default_domain h) refl
  domain-loaded (some f) array s e h = rw (e, text_copied array (domain_in (some f)) h) refl

  -- Where the name in the settings file, or else that of the program, has no NUL and fits into the
  -- array: `get_domain_name` leaves it in the array as a text.
  pub get_domain_name-text :
      (array : List ℕ) (s : Settings F)
      → has 0 (domain_text s) ≡ false
      → length (domain_text s) < length array
      → (d : List ℕ) × (get_domain_name glib array s ≡ done (d, record s { keyfile = freed }))
        × (c_string d ≡ done (domain_text s))
  get_domain_name-text array s z h = (
    domain_text s ++ (0 ∷ drop (length (domain_text s) + 1) array),
    domain-loaded (load glib (s.files conf_name)) array s refl h,
    c_string-append (domain_text s) (drop (length (domain_text s) + 1) array) z,
  )

heart_beat-g_domain : (op_code : ℕ) (o : Online) → (heart_beat op_code o).g_domain ≡ o.g_domain
unfolding heart_beat
heart_beat-g_domain op_code o = ground arith

-- A callback that always returns.
module _ {S : Type 0} (callback : Callback S)
    (total : (part : List ℕ) (s : S) → (r : ℕ × S) × (callback part s ≡ done r)) where
  deliver-total :
      (parts : List (List ℕ)) (s : S) → (r : Bool × S) × (deliver callback parts s ≡ done r)
  unfolding deliver
  deliver-total [] s = ((true, s), refl)
  deliver-total (part ∷ parts) s =
      let (r, e) = total part s in
      elim (Bool-cases (r.0 == length part)) [
        | inl y ↦ let (r', e') = deliver-total parts r.1 in (r', rw (e, y, e') refl)
        | inr n ↦ ((false, r.1), rw (e, n) refl)
      ]

  get_time_url-total :
      (handle : Bool) (e : Exchange) (s : S) (o : Online)
      → IsNamed o.g_domain
      → (r : ℕ × S × Online) × (get_time_url callback handle e s o ≡ done r)
        × ((r.2).g_domain ≡ o.g_domain)
  unfolding get_time_url
  get_time_url-total false e s o n = ((0, s, o), refl, refl)
  get_time_url-total true e s o n =
      let (r, q) = deliver-total e.parts s in
      let (url, u) = url_of-done o.g_domain time_path n (omega arith) in
      let code = if r.0 then e.code else curle_write_error in
      ((1, r.1, heart_beat code o), rw (u, q) refl, heart_beat-g_domain code o)

module _ {F Item : Type 0} (glib : Glib F) (json : Cjson Item) (mktime : TmFields → ℕ)
    (stack : ℕ → ℕ) where
  parse-total :
      (part : List ℕ) (k : Clock)
      → (r : ℕ × Clock) × (get_time_parse json mktime stack part k ≡ done r)
  unfolding get_time_parse
  parse-total part k = (_, refl)

  -- Where the name of the server has no NUL and no percent sign and less than 128 bytes, and its
  -- array has 128: the start ends, whatever the hardware and the server do; it leaves the name as a
  -- text, closes the settings file, takes back the power-on state and numbers the ports, of which
  -- the server counts as lost.
  pub sys_context_init-started :
      (hardware : Hardware) (handle : Bool) (exchange : Exchange) (w : Shared F)
      → has 0 (domain_text glib w.settings) ≡ false
      → has b'%' (domain_text glib w.settings) ≡ false
      → length (domain_text glib w.settings) < 128
      → length w.online.g_domain ≡ 128
      → (v : Shared F) × (sys_context_init json glib mktime stack hardware handle exchange w
          ≡ done v)
        × (c_string v.online.g_domain ≡ done (domain_text glib w.settings))
        × (v.settings.keyfile ≡ freed)
        × (v.clock.sys.poweron ≡ 0)
        × (v.online.net ≡ first_states)
  unfolding sys_context_init
  sys_context_init-started hardware handle exchange w z f h r128 =
      let (d, e, c) = get_domain_name-text glib w.online.g_domain w.settings z (omega arith) in
      let named : IsNamed d = record {
        domain = domain_text glib w.settings;
        text = c;
        no_format = f;
        short = h;
      } in
      let (r, q, kept) =
        get_time_url-total (get_time_parse json mktime stack) parse-total handle exchange
          (record (w.clock) { sys = (get_sys_mac hardware w.clock.sys).1 })
          (record (w.online) { g_domain = d }) named in
      (
        record {
          settings = record (w.settings) { keyfile = freed };
          clock = record (r.1) { sys = record (r.1.sys) { poweron = 0 } };
          online = record (r.2) { net = first_states };
        },
        rw (e, q) refl,
        rw kept c,
        refl,
        refl,
        refl,
      )
