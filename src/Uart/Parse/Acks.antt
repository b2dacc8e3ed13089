-- ===== src/Uart/Parse/Acks.antt =====
-- How `uart_protocol_parse` of uart/uart_protocol.c finds the notification that a response is for.
use multi_port_convertor.Base.{
  ℕ, ◌≡◌, refl, ap, ◌∙◌, true, false, List, [], ◌∷◌, ◌++◌, arith, none, done, ◌==◌, has, All,
}
use multi_port_convertor.Uart.Frame.{CmdFormat, procotol_check}
use multi_port_convertor.Uart.State.{SendFormat, Uart, update}
use multi_port_convertor.Uart.Parse.{
  Surroundings, acknowledge, find_command, take_notice, notice, dispatch, uart_protocol_parse,
  uart_cmd_list,
}

-- The buffer's `free_flag` is set.
abbrev pub flagged : SendFormat → SendFormat
flagged s = record s { poll = record (s.poll) { free_flag = 1 } }

-- No frame of the list has the sequence number.
abbrev pub NoneWith : ℕ → (ℕ → SendFormat) → List ℕ → Type 0
NoneWith sn f = All (λ b. (sn == (f b).cmd.sn) ≡ false)

-- The first frame with the sequence number is flagged, and nothing else changes.
pub acknowledge-first :
    (sn : ℕ) (f : ℕ → SendFormat) (before : List ℕ) (b : ℕ) (after : List ℕ)
    → NoneWith sn f before
    → (f b).cmd.sn ≡ sn
    → acknowledge sn (before ++ (b ∷ after)) f ≡ update f b (flagged (f b))
unfolding acknowledge
acknowledge-first sn f [] b after n e = ground arith
acknowledge-first sn f (c ∷ before) b after n e =
    ground (arith, acknowledge-first sn f before b after n.1)

-- With no such frame nothing changes.
pub acknowledge-none :
    (sn : ℕ) (f : ℕ → SendFormat) (bs : List ℕ) → NoneWith sn f bs → acknowledge sn bs f ≡ f
unfolding acknowledge
acknowledge-none sn f [] n = refl
acknowledge-none sn f (c ∷ bs) n = ground (arith, acknowledge-none sn f bs n.1)

-- RSP_POWERON, RSP_HID_INSERT, RSP_HID_PULLOUT, RSP_HID_DATA and RSP_PRINT_STA.
abbrev pub responses : List ℕ
responses = 0x10 ∷ 0x20 ∷ 0x21 ∷ 0x22 ∷ 0x24 ∷ []

abbrev pub acknowledged : ℕ → Uart → Uart
acknowledged sn u = record u { formats = acknowledge sn u.sends u.formats }

abbrev pub flag_one : ℕ → Uart → Uart
flag_one b u = record u { formats = update u.formats b (flagged (u.formats b)) }

dispatch-response :
    (env : Surroundings) (cmd : CmdFormat) (id : ℕ) (u : Uart)
    → has id responses ≡ true
    → dispatch env cmd (find_command id uart_cmd_list) u ≡ done (acknowledged cmd.sn u, none)
unfolding find_command notice take_notice
dispatch-response env cmd id u h = ground arith

-- `b` is the first buffer of the send list whose frame has the sequence number.
pub record IsFirst (sn : ℕ) (u : Uart) (before : List ℕ) (b : ℕ) (after : List ℕ) : Type 0 where
  pub listed : u.sends ≡ before ++ (b ∷ after)
  pub others : NoneWith sn u.formats before
  pub same_sn : (u.formats b).cmd.sn ≡ sn

acknowledged-first :
    (sn : ℕ) (u : Uart) (before : List ℕ) (b : ℕ) (after : List ℕ)
    → IsFirst sn u before b after
    → acknowledged sn u ≡ flag_one b u
acknowledged-first sn u before b after h =
    ap (λ f. record u { formats = f })
      (ap (λ bs. acknowledge sn bs u.formats) h.listed
        ∙ acknowledge-first sn u.formats before b after h.others h.same_sn)

-- A response that passes the check marks the first frame of the send list with its sequence number
-- as answered, whatever the command of that frame is, and changes nothing else.
pub parse-response :
    (env : Surroundings) (cmd : CmdFormat) (u : Uart) (before : List ℕ) (b : ℕ) (after : List ℕ)
    → procotol_check cmd ≡ done true
    → has cmd.cmd_id responses ≡ true
    → IsFirst cmd.sn u before b after
    → uart_protocol_parse env cmd u ≡ done (flag_one b u, none)
unfolding uart_protocol_parse
parse-response env cmd u before b after v h f = rw v (
    dispatch-response env cmd cmd.cmd_id u h
    ∙ ap (λ w. done (w, none)) (acknowledged-first cmd.sn u before b after f))

dispatch-upload :
    (env : Surroundings) (cmd : CmdFormat) (u u' : Uart)
    → env.http_up_data_rsp cmd u ≡ done u'
    → dispatch env cmd (find_command 0x31 uart_cmd_list) u ≡ done (acknowledged cmd.sn u', none)
unfolding find_command notice take_notice
dispatch-upload env cmd u u' e = rw e

-- A command to upload a measurement answers no notification, but behind its upload it marks the
-- first frame of the send list with its sequence number as answered.
pub parse-upload :
    (env : Surroundings) (cmd : CmdFormat) (u u' : Uart) (before : List ℕ) (b : ℕ) (after : List ℕ)
    → procotol_check cmd ≡ done true
    → cmd.cmd_id ≡ 0x31
    → env.http_up_data_rsp cmd u ≡ done u'
    → IsFirst cmd.sn u' before b after
    → uart_protocol_parse env cmd u ≡ done (flag_one b u', none)
unfolding uart_protocol_parse
parse-upload env cmd u u' before b after v id up f = rw v (
    ap (λ i. dispatch env cmd (find_command i uart_cmd_list) u) id
    ∙ dispatch-upload env cmd u u' up
    ∙ ap (λ w. done (w, none)) (acknowledged-first cmd.sn u' before b after f))
