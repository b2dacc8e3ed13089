-- ===== src/Net/Upload/Notifies.antt =====
-- What an upload by `http_up_data_rsp` of uart/uart_protocol.c, and the requests of
-- net/http_protocol.c behind it, do to the state of the serial port.
use multi_port_convertor.Base.{
  ℕ, ◌≡◌, true, false, Bool, Bool-cases, inl, inr, List, [], ◌∷◌, Option, none, some, arith,
  Outcome, done, ◌>>=◌, Safe, Safe-bind, Safe-weaken, always, Safe-if, ◌==◌, length, u8, put,
}
use mathlib.Core.Path.{subst, sym}
use multi_port_convertor.Uart.Frame.{CmdFormat}
use multi_port_convertor.Uart.State.{Uart, SystemInfo}
use multi_port_convertor.Uart.Upload.{Tm, measurement_of}
use multi_port_convertor.Uart.Notify.{http_up_data_ntf}
use multi_port_convertor.Uart.Parse.{Surroundings}
use multi_port_convertor.Uart.Tasks.Effects.{Queues, Rooms, uart_protocol_dispose-Queues}
use multi_port_convertor.Uart.Tasks.Receipts.{Queuing, nothing, one_more, IsNotifier}
use multi_port_convertor.Net.Http.Url.{add_path, url_of}
use multi_port_convertor.Net.Http.{
  Cjson, Exchange, Online, deliver, curl_easy_perform, errno_of, report, cjson_number,
  post_record_parse, repeat, post_record_url,
}
use multi_port_convertor.Net.Upload.{Uploads, http_up_data_rsp}

queue-Rooms : {t : ℕ} {u v : Uart} → Queues t u v → Rooms u → Rooms v
queue-Rooms {t} {u} {v} q room b = elim (Bool-cases (b == q.first)) [
  | inl e ↦ ground (arith, q.formats, q.room)
  | inr n ↦ ground (arith, q.formats, room b)
]

module _ (start : Uart) (room : Rooms start) where
  Queuing-Rooms : {v : Uart} → Queuing start v → Rooms v
  Queuing-Rooms nothing = room
  Queuing-Rooms (one_more r q) = queue-Rooms q (Queuing-Rooms r)

  ntf-Queuing :
      (stack : List ℕ) (state : ℕ) (u : Uart)
      → Queuing start u
      → Safe (Queuing start) (http_up_data_ntf stack state u)
  unfolding http_up_data_ntf
  ntf-Queuing stack state u q =
      Safe-bind (λ d. Unit {0}) (Queuing start) (put stack 0 state) _ (always _)
        (λ d _.
          Safe-weaken (Queues 0 u) (Queuing start) _
            (uart_protocol_dispose-Queues _ u (Queuing-Rooms q)) (λ v x. one_more q x))

  -- A result beside a state that the start has grown to.
  abbrev Grown : {A : Type 0} → Outcome (A × Uart) → Type 0
  Grown = Safe (λ x. Queuing start x.1)

  Grown-bind :
      {A B : Type 0} (o : Outcome (A × Uart)) (k : A × Uart → Outcome (B × Uart))
      → Grown o
      → ((x : A × Uart) → Queuing start x.1 → Grown (k x))
      → Grown (o >>= k)
  Grown-bind o k p f = Safe-bind (λ x. Queuing start x.1) (λ x. Queuing start x.1) o k p f

  module _ {Item : Type 0} (json : Cjson Item) (stack : List ℕ) where
    report-Queuing :
        (size : ℕ) (item : Option Item) (u : Uart)
        → Queuing start u
        → Grown (report json stack size item u)
    report-Queuing size none u q = q
    report-Queuing size (some e) u q = elim (Bool-cases (json.type e == cjson_number)) [
      | inl y ↦ rw y (
          Safe-bind (Queuing start) (λ x. Queuing start x.1) _ _
            (ntf-Queuing stack (u8 (json.valueint e)) u q) (λ u' q'. q'))
      | inr n ↦ rw n q
    ]

    deliver-Queuing :
        (parts : List (List ℕ)) (u : Uart)
        → Queuing start u
        → Grown (deliver (post_record_parse json stack) parts u)
    unfolding deliver post_record_parse
    deliver-Queuing [] u q = q
    deliver-Queuing (part ∷ parts) u q =
        Grown-bind _ _ (report-Queuing (length part) (errno_of json stack part) u q) (λ x q'.
          Grown-bind _ _ (Safe-if _ (x.0 == length part) _ _ (deliver-Queuing parts x.1 q') q')
            (λ y r. r))

    perform-Queuing :
        (e : Exchange) (u : Uart)
        → Queuing start u
        → Grown (curl_easy_perform (post_record_parse json stack) e u)
    unfolding curl_easy_perform
    perform-Queuing e u q = Grown-bind _ _ (deliver-Queuing e.parts u q) (λ x r. r)

    repeat-Queuing :
        (op_code : ℕ) (second third : Exchange) (o : Online) (u : Uart)
        → Queuing start u
        → Safe (λ x. Queuing start x.2) (repeat json stack op_code second third o u)
    unfolding repeat
    repeat-Queuing op_code second third o u q =
        Safe-if (λ x. Queuing start x.2) (op_code == 0) _ _ q
          (Safe-bind (λ x. Queuing start x.1) (λ x. Queuing start x.2)
            (curl_easy_perform (post_record_parse json stack) second u) _
            (perform-Queuing second u q)
            (λ x r.
              Safe-bind (λ x. Queuing start x.2) (λ x. Queuing start x.2) _ _
                (Safe-if (λ x. Queuing start x.2) (x.0 == 0) _ _ r
                  (Safe-bind (λ x. Queuing start x.1) (λ x. Queuing start x.2)
                    (curl_easy_perform (post_record_parse json stack) third x.1) _
                    (perform-Queuing third x.1 r) (λ y r'. r')))
                (λ y r'. r')))

    post_record_url-Queuing :
        (handle : Bool) (first second third : Exchange) (o : Online) (u : Uart)
        → Queuing start u
        → Grown (post_record_url json stack handle first second third o u)
    unfolding post_record_url
    post_record_url-Queuing false first second third o u q = q
    post_record_url-Queuing true first second third o u q =
        Safe-bind (λ url. Unit {0}) (λ x. Queuing start x.1) (url_of o.g_domain add_path) _
          (always _)
          (λ url _. Grown-bind _ _ (perform-Queuing first u q) (λ x r.
            Safe-bind (λ x. Queuing start x.2) (λ x. Queuing start x.1) _ _
              (repeat-Queuing x.0 second third o x.1 r)
              (λ y r'.
                Safe-if (λ x. Queuing start x.1) (y.0 == 0) _ _ r'
                  (Safe-bind (Queuing start) (λ x. Queuing start x.1) _ _
                    (ntf-Queuing stack 2 y.2 r') (λ w r''. r'')))))

-- The environment in which a frame with a measurement is uploaded, with what the requests meet.
module _ {Item : Type 0} (json : Cjson Item) (stack : List ℕ) (gmtime : ℕ → Tm) (sys : SystemInfo)
    (handle : Bool) (first second third : Exchange) (w : Uploads) where
  abbrev pub upload : CmdFormat → Uart → Outcome Uart
  upload cmd u = do
    x ← http_up_data_rsp json stack gmtime sys handle first second third cmd w u
    done x.2

  -- All that `http_up_data_rsp` does to the state of the serial port, where it does not end the
  -- process and no array is left, is to queue frames that pass the protocol's check and wait for no
  -- answer, whatever libcurl meets and the server sends.
  pub upload-IsNotifier : (env : Surroundings) → env.http_up_data_rsp ≡ upload → IsNotifier env
  unfolding http_up_data_rsp
  upload-IsNotifier env e = record {
    http = λ cmd u room.
        subst (λ f. Safe (Queuing u) (f cmd u)) (sym e)
          (Safe-bind (λ x. Queuing u x.2) (Queuing u) _ _
            (Safe-bind (λ x. Unit {0}) (λ x. Queuing u x.2)
              (measurement_of gmtime sys w.http_send_sn cmd.payload) _ (always _)
              (λ x _.
                Safe-bind (λ y. Queuing u y.1) (λ x. Queuing u x.2) _ _
                  (post_record_url-Queuing u room json stack handle first second third w.online u
                    nothing)
                  (λ y q. q)))
            (λ x q. q));
  }
