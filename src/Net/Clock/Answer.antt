-- ===== src/Net/Clock/Answer.antt =====
-- What an answer with the server's time does to the clock and the time zone.
use multi_port_convertor.Base.{
  ◌++◌, ℕ, ◌+◌, ◌-◌, ◌*◌, ◌^◌, ◌≤◌, ◌≡◌, refl, List, arith, some, done, length, u32,
}
use multi_port_convertor.Net.Http.{Cjson, errno}
use multi_port_convertor.Net.Clock.{
  atoi, half_hours, TmFields, Clock, name_data, name_time, name_time_zone, fields_of, set_clock,
  get_time_parse,
}
use multi_port_convertor.Net.Clock.Scan.{Moment, IsWritten, text_of, scan_time-text_of}

module _ {Item : Type 0} (json : Cjson Item) (mktime : TmFields → ℕ) (stack : ℕ → ℕ) where
  -- The part is an object with the number 0 as its `errno`, and with the moment and the zone in its
  -- `data`.
  pub record Tells (part : List ℕ) (m : Moment) (zone : List ℕ) : Type 0 where
    pub root : Item
    pub errno_item : Item
    pub data_item : Item
    pub time_item : Item
    pub zone_item : Item
    pub parsed : json.parse (part ++ json.behind part) ≡ some root
    pub has_errno : json.get_object_item root errno ≡ some errno_item
    pub errno_type : json.type errno_item ≡ 3
    pub errno_value : json.valueint errno_item ≡ 0
    pub has_data : json.get_object_item root name_data ≡ some data_item
    pub has_time : json.get_object_item data_item name_time ≡ some time_item
    pub printed : json.print time_item ≡ text_of m
    pub has_zone : json.get_object_item data_item name_time_zone ≡ some zone_item
    pub zone_type : json.type zone_item ≡ 4
    pub zone_value : json.valuestring zone_item ≡ zone

  -- An answer that is parsed, with what stands behind it in memory, to an object with a moment from
  -- the year 1900 on, in the server's format, sets the clock to what `mktime` makes of its parts,
  -- and sets the time zone and `time_valid`; the month is handed on as it is written.
  pub get_time_parse-set :
      (part : List ℕ) (m : Moment) (zone : List ℕ) (k : Clock)
      → Tells part m zone
      → IsWritten m
      → 1900 ≤ m.year
      → get_time_parse json mktime stack part k
        ≡ done (
          length part,
          record {
            sys = record (k.sys) { timezone = half_hours (atoi zone); time_valid = 1 };
            set_to = some (
              mktime (record {
                tm_year = m.year - 1900;
                tm_mon = m.month;
                tm_mday = m.day;
                tm_hour = m.hour;
                tm_min = m.minute;
                tm_sec = m.second;
              }),
              m.milli * 1000,
            );
          },
        )
  unfolding get_time_parse set_clock fields_of
  get_time_parse-set part m zone k t w y =
      let e : u32 (m.year + (2 ^ 32 - 1900)) ≡ m.year - 1900 = omega (arith, w.year) in
      let f : u32 (m.milli * 1000) ≡ m.milli * 1000 = omega (arith, w.milli) in
      rw
        (
          t.parsed,
          t.has_errno,
          t.errno_type,
          t.errno_value,
          t.has_data,
          t.has_time,
          t.printed,
          t.has_zone,
          t.zone_type,
          t.zone_value,
          scan_time-text_of m w,
          e,
          f,
        )
        refl
