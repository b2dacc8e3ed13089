-- ===== src/Net/Http/Posts.antt =====
-- What `post_record_Url` of net/http_protocol.c tells the device.
use multi_port_convertor.Base.{
  ℕ, ◌⊎◌, inl, inr, ==_refl, ◌%◌, ◌≡◌, ◌≢◌, refl, true, false, List, [], ◌∷◌, some, arith, done,
  ◌==◌, length, put-done, read-done, drop,
}
use multi_port_convertor.Uart.State.{Uart}
use multi_port_convertor.Net.Http.Url.{add_path, IsNamed, url_of-done}
use multi_port_convertor.Uart.Notify.{SendInfo, http_up_data_ntf}
use multi_port_convertor.Uart.Notify.Frames.{queued, uart_protocol_dispose-queued}
use multi_port_convertor.Uart.Notify.Texts.{set_first}
use multi_port_convertor.Net.Http.{
  Cjson, Exchange, Online, set_err, deliver, curl_easy_perform, errno_of, post_record_parse, repeat,
  post_record_url,
}

-- The notification of the upload's result.
abbrev pub result_info : List ℕ → ℕ → SendInfo
result_info stack state = record {
  cmd_id = 0x31;
  len = 1;
  pdt_type = 0xA1;
  content = state ∷ drop 1 stack;
  poll_type = 0;
}

is_failure : (c : ℕ) → c ≢ 0 → (c == 0) ≡ false
is_failure c h = ground arith

module _ {Item : Type 0} (json : Cjson Item) (stack old : List ℕ) (u : Uart) (b : ℕ) (rest : List ℕ)
    (filled : length stack ≡ 128) (free : u.free ≡ b ∷ rest)
    (held : (u.formats b).cmd.payload ≡ old) (room : length old ≡ 129) where
  -- The state of the port with the notification that carries `state`.
  abbrev pub told : ℕ → Uart
  told state = queued (result_info stack state) u b rest (state ∷ []) old

  http_up_data_ntf-told : (state : ℕ) → http_up_data_ntf stack state u ≡ done (told state)
  unfolding http_up_data_ntf
  http_up_data_ntf-told state =
      rw (put-done stack 0 state (omega arith), set_first stack state (omega arith))
        (uart_protocol_dispose-queued (result_info stack state) u b rest (state ∷ []) old refl
          (omega arith) room free held (read-done (state ∷ drop 1 stack) 1 (omega arith)))

  -- The server answers with an object whose `errno` is the number.
  pub record Answers (body : List ℕ) (number : ℕ) (e : Exchange) : Type 1 where
    pub parts : e.parts ≡ body ∷ []
    pub code : e.code ≡ 0
    pub item : Item
    pub errno : errno_of json stack body ≡ some item
    pub type : json.type item ≡ 3
    pub value : json.valueint item ≡ number

  -- The request fails, and its callback has told the device nothing.
  pub record Fails (e : Exchange) : Type 0 where
    pub code : ℕ
    pub nonzero : code ≢ 0
    pub ends : curl_easy_perform (post_record_parse json stack) e u ≡ done (code, u)

  perform-Answers :
      (body : List ℕ) (number : ℕ) (e : Exchange)
      → Answers body number e
      → curl_easy_perform (post_record_parse json stack) e u ≡ done (0, told (number % 256))
  unfolding curl_easy_perform deliver post_record_parse
  perform-Answers body number e a =
      rw
        (
          a.parts,
          a.errno,
          a.type,
          a.value,
          http_up_data_ntf-told (number % 256),
          ==_refl (length body),
          a.code,
        )
        refl

  -- With a free buffer, and a name of the server that is a text without a percent sign and of less
  -- than 128 bytes, where one of three requests is answered with one part, which is parsed, with
  -- what stands behind it in memory, to an object with an `errno`, and those before it fail and
  -- tell the device nothing, the device is told the server's number exactly once, modulo 256, and
  -- the server counts as reached.
  pub post-answered :
      (body : List ℕ) (number : ℕ) (first second third : Exchange) (o : Online)
      → IsNamed o.g_domain
      → Answers body number first
        ⊎ ((Fails first × Answers body number second)
            ⊎ (Fails first × Fails second × Answers body number third))
      → (v : Online) × (post_record_url json stack true first second third o u
          ≡ done (v, told (number % 256)))
        × ((v.net 3).err ≡ 0)
  unfolding post_record_url repeat
  post-answered body number first second third o named (inl a) = (
    set_err 0 o,
    rw
        (
          (url_of-done o.g_domain add_path named (omega arith)).1,
          perform-Answers body number first a,
        )
        refl,
    refl,
  )
  post-answered body number first second third o named (inr (inl (f, a))) = (
    set_err 0 o,
    rw
        (
          (url_of-done o.g_domain add_path named (omega arith)).1,
          f.ends,
          is_failure f.code f.nonzero,
          perform-Answers body number second a,
        )
        refl,
    refl,
  )
  post-answered body number first second third o named (inr (inr (f, g, a))) = (
    set_err 0 (set_err 1 o),
    rw
        (
          (url_of-done o.g_domain add_path named (omega arith)).1,
          f.ends,
          is_failure f.code f.nonzero,
          g.ends,
          is_failure g.code g.nonzero,
          perform-Answers body number third a,
        )
        refl,
    refl,
  )

  -- With a free buffer, and a name of the server that is a text without a percent sign and of less
  -- than 128 bytes, where three requests fail and tell the device nothing, the device is told 2,
  -- and the server counts as lost.
  pub post-unreachable :
      (first second third : Exchange) (o : Online)
      → IsNamed o.g_domain
      → Fails first
      → Fails second
      → Fails third
      → post_record_url json stack true first second third o u ≡ done (set_err 1 o, told 2)
  unfolding post_record_url repeat
  post-unreachable first second third o named f g h =
      rw
        (
          (url_of-done o.g_domain add_path named (omega arith)).1,
          f.ends,
          is_failure f.code f.nonzero,
          g.ends,
          is_failure g.code g.nonzero,
          h.ends,
          is_failure h.code h.nonzero,
          http_up_data_ntf-told 2,
        )
        refl
