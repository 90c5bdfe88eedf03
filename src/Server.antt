-- ===== src/Server.antt =====
-- The WebSocket front end, `dispatch`, `status_reply`, `ask`, `error` and the read loop of
-- `connection` in proxyd/src/server.rs. JSON, UTF-8 and the channels are parameters: `Codec` and
-- `Channels`, over the state `S` of everything on the other side of them.
pub mod Refusal
pub mod Tasks
use hackrf_proxy.Base.{
  ℕ, Bool, true, false, Option, none, some, List, [], ◌∷◌, String, ◌==◌, not, if◌then◌else◌,
}
use hackrf_proxy.Base.Int.{ℤ}
use hackrf_proxy.Base.Results.{Error, Result, ok, err}
use hackrf_proxy.Wire.{
  Transmit, ConfigureRx, Request, RequestPayload, Status, Message, MessagePayload, ErrorText, reply,
  event, protocol_version, validate, in_tuning_range,
}
use hackrf_proxy.Engine.Commands.{Command}

-- `serde_json::from_str` and `String::from_utf8_lossy`.
pub record Codec : Type 0 where
  pub parse : String → Result Error Request
  pub from_utf8_lossy : List ℕ → String

-- The command channel, the three kinds of reply channel and the connection's outbound queue.
-- `send` and `queue` say whether the other end was still there; a reply is `none` if its sender was
-- dropped.
pub record Channels (S : Type 0) : Type 0 where
  pub send : Command → S → Bool × S
  pub transmit_reply : S → Option (Result Error ℤ) × S
  pub configure_reply : S → Option (Result Error (Unit {0})) × S
  pub status_reply : S → Option Status × S
  pub queue : Message → S → Bool × S

pub data WsMessage : Type 0 where
  text : String → WsMessage
  binary : List ℕ → WsMessage
  ping pong frame close : WsMessage

unfoldable pub error : Option String → ErrorText → Message
unfolding reply
error id message = reply id (MessagePayload.error message)

unfoldable pub ask :
    {S R : Type 0} → Channels S → (S → Option R × S) → Command → S → Result ErrorText R × S
ask ch response command s =
    let (sent, s') = ch.send command s in
    let (answer, s'') = response s' in
    if not sent
    then (err ErrorText.radio_thread_gone, s')
    else elim answer [ none ↦ (err ErrorText.request_dropped, s'') | some r ↦ (ok r, s'') ]

module _ {S : Type 0} (ch : Channels S) where
  unfoldable pub answer_status : Option String → S → Message × S
  unfolding ask error
  answer_status id s =
      let (answer, s') = ask ch (ch.status_reply) Command.status s in
      elim answer [
        | ok status ↦ (reply id (MessagePayload.status status), s')
        | err gone ↦ (error id gone, s')
      ]

  -- The arm of `dispatch` for a transmission.
  unfoldable pub answer_transmit : Option String → Transmit → S → Message × S
  unfolding ask error
  answer_transmit id r s = elim (validate r) [
    | err reason ↦ (error id (ErrorText.invalid reason), s)
    | ok u ↦
        let (answer, s') = ask ch (ch.transmit_reply) (Command.transmit r) s in
        elim answer [
          | ok (ok duration) ↦ (reply id (MessagePayload.transmitted duration), s')
          | ok (err e) ↦ (error id (ErrorText.from_radio e), s')
          | err gone ↦ (error id gone, s')
        ]
  ]

  unfoldable pub ask_configure : Option String → ConfigureRx → S → Message × S
  unfolding ask error answer_status
  ask_configure id c s =
      let (answer, s') =
        ask ch (ch.configure_reply) (Command.configure_rx c.frequency c.enabled) s in
      elim answer [
        | ok (ok u) ↦ answer_status id s'
        | ok (err e) ↦ (error id (ErrorText.from_radio e), s')
        | err gone ↦ (error id gone, s')
      ]

  -- The arm of `dispatch` for the receiver.
  unfoldable pub answer_configure : Option String → ConfigureRx → S → Message × S
  unfolding ask_configure
  answer_configure id c s = elim c.frequency [
    | none ↦ ask_configure id c s
    | some f ↦
        if not (in_tuning_range f)
        then (error id (ErrorText.untunable f), s)
        else ask_configure id c s
  ]

  unfoldable pub answer_payload : Option String → RequestPayload → S → Message × S
  unfolding answer_transmit answer_configure answer_status
  answer_payload id (RequestPayload.transmit r) s = answer_transmit id r s
  answer_payload id (RequestPayload.configure_rx c) s = answer_configure id c s
  answer_payload id RequestPayload.status s = answer_status id s

  module _ (codec : Codec) where
    unfoldable pub dispatch : String → S → Message × S
    unfolding answer_payload error
    dispatch t s = elim (codec.parse t) [
      | err e ↦ (event (MessagePayload.error (ErrorText.could_not_parse e)), s)
      | ok request ↦
          if not (request.v == protocol_version)
          then (error request.id (ErrorText.unsupported_version request.v), s)
          else answer_payload request.id request.payload s
    ]

    -- The text of a message that carries a request.
    unfoldable pub request_text : WsMessage → Option String
    request_text (text t) = some t
    request_text (binary bytes) = some (codec.from_utf8_lossy bytes)
    request_text ping = none
    request_text pong = none
    request_text frame = none
    request_text close = none

    -- A request is answered; the Boolean says whether the loop goes on.
    unfoldable pub serve_text : String → S → Bool × S
    unfolding dispatch
    serve_text t s = let (message, s') = dispatch t s in ch.queue message s'

    abbrev pub is_close : WsMessage → Bool
    is_close close = true
    is_close (text t) = false
    is_close (binary b) = false
    is_close ping = false
    is_close pong = false
    is_close frame = false

    unfoldable pub serve_message : WsMessage → S → Bool × S
    unfolding serve_text request_text
    serve_message m s = elim (request_text m) [
      | none ↦ (not (is_close m), s)
      | some t ↦ serve_text t s
    ]

    -- The read loop of `connection`, over what the socket yields until it ends.
    unfoldable pub read_loop : List (Result Error WsMessage) → S → Result Error (Unit {0}) × S
    unfolding serve_message
    read_loop [] s = (ok tt, s)
    read_loop (err e ∷ rest) s = (err e, s)
    read_loop (ok m ∷ rest) s =
        let (goes_on, s') = serve_message m s in
        elim goes_on [ true ↦ read_loop rest s' | false ↦ (ok tt, s') ]
