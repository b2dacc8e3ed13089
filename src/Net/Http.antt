-- ===== src/Net/Http.antt =====
-- The requests of net/http_protocol.c over libcurl and cJSON.
pub mod Url
pub mod Heart
pub mod Posts
use multi_port_convertor.Base.{
  ℕ, ◌+◌, Bool, true, false, List, [], ◌∷◌, ◌++◌, Option, none, some, Outcome, done, ◌>>=◌, leb,
  ◌==◌, if◌then◌else◌, u8, u32, length,
}
use multi_port_convertor.Net.Http.Url.{add_path, time_path, url_of}
use multi_port_convertor.Uart.State.{Uart, NetState}
use multi_port_convertor.Uart.Notify.{http_up_data_ntf}

-- The calls of cJSON: an `Item` is a `cJSON *` that is not NULL. `valueint` is the 32-bit pattern of
-- the `int`. `behind` is what stands behind a part of an answer in the memory of libcurl, up to a
-- NUL: the callbacks hand a text to `cJSON_Parse` where there is only a part.
pub record Cjson (Item : Type 0) : Type 0 where
  pub parse : List ℕ → Option Item
  pub behind : List ℕ → List ℕ
  pub get_object_item : Item → List ℕ → Option Item
  pub type : Item → ℕ
  pub valueint : Item → ℕ
  pub valuestring : Item → List ℕ
  pub print : Item → List ℕ

-- `cJSON_Number`
abbrev pub cjson_number : ℕ
cjson_number = 3

-- What one `curl_easy_perform` meets: the parts of the answer, each of which goes to the callback,
-- and the code that it would return if the callback takes them all.
pub record Exchange : Type 0 where
  pub parts : List (List ℕ)
  pub code : ℕ

-- `CURLE_WRITE_ERROR`
abbrev pub curle_write_error : ℕ
curle_write_error = 23

-- `get_time_parse` and `post_record_parse` are callbacks: their result is the count that they return.
abbrev pub Callback : Type 0 → Type 0
Callback S = List ℕ → S → Outcome (ℕ × S)

module _ {S : Type 0} (callback : Callback S) where
  -- Were all parts taken whole? The transfer stops at the first that is not.
  unfoldable pub deliver : List (List ℕ) → S → Outcome (Bool × S)
  deliver [] s = done (true, s)
  deliver (part ∷ parts) s = do
    (count, s') ← callback part s
    later ← if count == length part then deliver parts s' else done (false, s')
    done later

  unfoldable pub curl_easy_perform : Exchange → S → Outcome (ℕ × S)
  unfolding deliver
  curl_easy_perform e s = do
    (taken, s') ← deliver e.parts s
    done (if taken then e.code else curle_write_error, s')

-- `heart_err_time`, `net_state`, and the array `g_domain` of app/system.c.
pub record Online : Type 0 where
  pub heart_err_time : ℕ
  pub net : ℕ → NetState
  pub g_domain : List ℕ

-- `net_state[3].err = e`
abbrev pub set_err : ℕ → Online → Online
set_err e o = record o { net = λ i. if i == 3 then record (o.net 3) { err = e } else o.net i }

-- What `get_time_Url` makes of the code of its request.
unfoldable pub heart_beat : ℕ → Online → Online
heart_beat op_code o =
    let n = u32 (o.heart_err_time + 1) in
    if op_code == 0
    then set_err 0 (record o { heart_err_time = 0 })
    else if leb 3 n
    then set_err 1 (record o { heart_err_time = 0 })
    else record o { heart_err_time = n }

-- `get_time_Url`; `handle` says whether `curl_easy_init` gives a handle. Its callback, which
-- Net/Clock models, is an argument.
unfoldable pub get_time_url :
    {S : Type 0} → Callback S → (handle : Bool) → Exchange → S → Online → Outcome (ℕ × S × Online)
unfolding curl_easy_perform heart_beat
get_time_url callback false e s o = done (0, s, o)
get_time_url callback true e s o = do
  url ← url_of o.g_domain time_path
  (op_code, s') ← curl_easy_perform callback e s
  done (1, s', heart_beat op_code o)

-- The name `errno`.
abbrev pub errno : List ℕ
errno = b'e' ∷ b'r' ∷ b'r' ∷ b'n' ∷ b'o' ∷ []

module _ {Item : Type 0} (json : Cjson Item) (stack : List ℕ) where
  -- What a part stands for: no object with an `errno`, or its `errno`.
  abbrev pub errno_of : List ℕ → Option Item
  errno_of part = elim (json.parse (part ++ json.behind part)) [
    | none ↦ none
    | some root ↦ json.get_object_item root errno
  ]

  abbrev pub report : ℕ → Option Item → Uart → Outcome (ℕ × Uart)
  report size none u = done (0, u)
  report size (some e) u =
      let told = (do u' ← http_up_data_ntf stack (u8 (json.valueint e)) u; done (size, u')) in
      if json.type e == cjson_number then told else done (size, u)

  unfoldable pub post_record_parse : Callback Uart
  post_record_parse part u = report (length part) (errno_of part) u

  -- The code of the last request, behind the first one: two more are made while they fail.
  unfoldable pub repeat :
      ℕ → (second third : Exchange) → Online → Uart → Outcome (ℕ × Online × Uart)
  unfolding curl_easy_perform post_record_parse
  repeat op_code second third o u =
      let third_time : Uart → Outcome (ℕ × Online × Uart) = λ u'. (do
        (code, u'') ← curl_easy_perform post_record_parse third u'
        done (code, set_err 1 o, u'')) in
      let second_time = (do
        (code, u') ← curl_easy_perform post_record_parse second u
        later ← if code == 0 then done (code, o, u') else third_time u'
        done later) in
      if op_code == 0 then done (op_code, o, u) else second_time

  -- `post_record_Url`: with a handle, up to three requests, and then what they led to.
  unfoldable pub post_record_url :
      (handle : Bool) (first second third : Exchange) → Online → Uart → Outcome (Online × Uart)
  unfolding repeat
  post_record_url false first second third o u = done (o, u)
  post_record_url true first second third o u = do
    url ← url_of o.g_domain add_path
    (code, u') ← curl_easy_perform post_record_parse first u
    (last, o', u'') ← repeat code second third o u'
    let refused = (do w ← http_up_data_ntf stack 2 u''; done (o', w))
    if last == 0 then done (set_err 0 o', u'') else refused
