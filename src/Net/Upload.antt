-- ===== src/Net/Upload.antt =====
-- `http_up_data_rsp` of uart/uart_protocol.c as a whole: the object of the measurement is made, and
-- its text goes to the server by `post_record_Url` of net/http_protocol.c.
pub mod Notifies
use multi_port_convertor.Base.{
  ℕ, ◌%◌, ◌≡◌, refl, ◌⊎◌, true, Bool, List, ◌∷◌, Outcome, done, ◌>>=◌, length,
}
use multi_port_convertor.Uart.Frame.{CmdFormat}
use multi_port_convertor.Uart.State.{Uart, SystemInfo}
use multi_port_convertor.Uart.Upload.{Tm, Measurement, measurement_of}
use multi_port_convertor.Net.Http.{Cjson, Exchange, Online, post_record_url}
use multi_port_convertor.Net.Http.Posts.{told, Answers, Fails, post-answered}

-- `http_send_sn`, and what the requests change.
pub record Uploads : Type 0 where
  pub http_send_sn : ℕ
  pub online : Online

module _ {Item : Type 0} (json : Cjson Item) (stack : List ℕ) (gmtime : ℕ → Tm)
    (sys : SystemInfo) where
  -- `handle` and the three exchanges are what libcurl meets. The text of the object is what
  -- `cJSON_Print` makes of the measurement; the second result is that measurement.
  unfoldable pub http_up_data_rsp :
      (handle : Bool) (first second third : Exchange)
      → CmdFormat
      → Uploads
      → Uart
      → Outcome (Uploads × Measurement × Uart)
  http_up_data_rsp handle first second third cmd w u = do
    (m, sn) ← measurement_of gmtime sys w.http_send_sn cmd.payload
    (o, u') ← post_record_url json stack handle first second third w.online u
    done (record { http_send_sn = sn; online = o }, m, u')
