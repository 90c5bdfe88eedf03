-- ===== src/Server/Refusal.antt =====
-- What reaches the arbiter, and what a reply carries, over `dispatch` of proxyd/src/server.rs.
use hackrf_proxy.Base.{
  ℕ, Bool, true, Option, none, some, List, [], ◌∷◌, String, ◌≡◌, arith, Option-cases, Bool-cases,
  inl, inr,
}
use hackrf_proxy.Base.Results.{Error, Result, ok, err, Result-cases}
use hackrf_proxy.Wire.{
  Transmit, ConfigureRx, Request, RequestPayload, Message, reply, event, protocol_version, validate,
  in_tuning_range,
}
use hackrf_proxy.Engine.Commands.{Command}
use hackrf_proxy.Server.{
  Codec, Channels, WsMessage, error, ask, answer_status, answer_transmit, ask_configure,
  answer_configure, answer_payload, dispatch, request_text, serve_text, serve_message, read_loop,
}

-- The commands that a request may become.
abbrev pub IsAllowed : Command → Type 0
IsAllowed (Command.transmit r) = validate r ≡ ok tt
IsAllowed (Command.configure_rx none enabled) = Unit
IsAllowed (Command.configure_rx (some f) enabled) = in_tuning_range f ≡ true
IsAllowed Command.status = Unit
IsAllowed Command.device_arrived = Unit

-- What is kept by the sending of an allowed command, by waiting for a reply and by queueing one.
pub record Keeps {S : Type 0} (ch : Channels S) (P : S → Type 0) : Type 0 where
  pub keep_send : (c : Command) (s : S) → IsAllowed c → P s → P (ch.send c s).1
  pub keep_transmit : (s : S) → P s → P (ch.transmit_reply s).1
  pub keep_configure : (s : S) → P s → P (ch.configure_reply s).1
  pub keep_status : (s : S) → P s → P (ch.status_reply s).1
  pub keep_queue : (m : Message) (s : S) → P s → P (ch.queue m s).1

none-IsAllowed :
    (frequency : Option ℕ) (enabled : Bool)
    → frequency ≡ none
    → IsAllowed (Command.configure_rx frequency enabled)
none-IsAllowed none enabled h = tt
none-IsAllowed (some f) enabled h = ground arith

some-IsAllowed :
    (frequency : Option ℕ) (enabled : Bool) (f : ℕ)
    → frequency ≡ some f
    → in_tuning_range f ≡ true
    → IsAllowed (Command.configure_rx frequency enabled)
some-IsAllowed none enabled f h tuned = tt
some-IsAllowed (some g) enabled f h tuned = ground arith

module _ {S : Type 0} (ch : Channels S) (P : S → Type 0) (k : Keeps ch P) where
  ask-keeps :
      {R : Type 0} (response : S → Option R × S)
      → ((s : S) → P s → P (response s).1)
      → (c : Command) (s : S) → IsAllowed c
      → P s
      → P (ask ch response c s).1
  unfolding ask
  ask-keeps response kr c s a p =
      let sent = k.keep_send c s a p in let answered = kr (ch.send c s).1 sent in ground arith

  answer_status-keeps : (id : Option String) (s : S) → P s → P (answer_status ch id s).1
  unfolding answer_status
  answer_status-keeps id s p =
      let asked = ask-keeps (ch.status_reply) (k.keep_status) Command.status s tt p in ground arith

  answer_transmit-keeps :
      (id : Option String) (r : Transmit) (s : S) → P s → P (answer_transmit ch id r s).1
  unfolding answer_transmit
  answer_transmit-keeps id r s p =
      let asked = λ (a : validate r ≡ ok tt).
        ask-keeps (ch.transmit_reply) (k.keep_transmit) (Command.transmit r) s a p in
      ground arith

  ask_configure-keeps :
      (id : Option String) (c : ConfigureRx) (s : S)
      → IsAllowed (Command.configure_rx c.frequency c.enabled)
      → P s
      → P (ask_configure ch id c s).1
  unfolding ask_configure
  ask_configure-keeps id c s a p =
      let asked =
        ask-keeps (ch.configure_reply) (k.keep_configure)
          (Command.configure_rx c.frequency c.enabled) s a p in
      let s' = (ask ch (ch.configure_reply) (Command.configure_rx c.frequency c.enabled) s).1 in
      let status = answer_status-keeps id s' asked in ground arith

  answer_configure-keeps :
      (id : Option String) (c : ConfigureRx) (s : S) → P s → P (answer_configure ch id c s).1
  unfolding answer_configure
  answer_configure-keeps id c s p = elim (Option-cases c.frequency) [
    | inl h ↦
        let kept = ask_configure-keeps id c s (none-IsAllowed c.frequency c.enabled h) p in
        ground arith
    | inr (f, h) ↦ elim (Bool-cases (in_tuning_range f)) [
      | inl tuned ↦
          let kept =
            ask_configure-keeps id c s (some-IsAllowed c.frequency c.enabled f h tuned) p in
          ground arith
      | inr untuned ↦ ground arith
    ]
  ]

  answer_payload-keeps :
      (id : Option String) (q : RequestPayload) (s : S) → P s → P (answer_payload ch id q s).1
  unfolding answer_payload
  answer_payload-keeps id (RequestPayload.transmit r) s p = answer_transmit-keeps id r s p
  answer_payload-keeps id (RequestPayload.configure_rx c) s p = answer_configure-keeps id c s p
  answer_payload-keeps id RequestPayload.status s p = answer_status-keeps id s p

  module _ (codec : Codec) where
    dispatch-keeps : (t : String) (s : S) → P s → P (dispatch ch codec t s).1
    unfolding dispatch
    dispatch-keeps t s p = elim (Result-cases (codec.parse t)) [
      | inl (request, h) ↦
          let kept = answer_payload-keeps request.id request.payload s p in ground arith
      | inr (e, h) ↦ ground arith
    ]

    serve_text-keeps : (t : String) (s : S) → P s → P (serve_text ch codec t s).1
    unfolding serve_text
    serve_text-keeps t s p =
        k.keep_queue (dispatch ch codec t s).0 (dispatch ch codec t s).1 (dispatch-keeps t s p)

    serve_message-keeps : (m : WsMessage) (s : S) → P s → P (serve_message ch codec m s).1
    unfolding serve_message request_text
    serve_message-keeps (WsMessage.text t) s p = serve_text-keeps t s p
    serve_message-keeps (WsMessage.binary b) s p = serve_text-keeps (codec.from_utf8_lossy b) s p
    serve_message-keeps WsMessage.ping s p = p
    serve_message-keeps WsMessage.pong s p = p
    serve_message-keeps WsMessage.frame s p = p
    serve_message-keeps WsMessage.close s p = p

    -- However a connection ends and whatever its messages are, the state of the other side keeps
    -- any property that is kept by the sending of an allowed command, by waiting for a reply and by
    -- queueing a message. A transmission is allowed if `validate` accepts it, and a tuning if the
    -- frequency is in range.
    pub read_loop_sends_allowed :
        (messages : List (Result Error WsMessage)) (s : S)
        → P s
        → P (read_loop ch codec messages s).1
    unfolding read_loop
    read_loop_sends_allowed [] s p = p
    read_loop_sends_allowed (err e ∷ rest) s p = p
    read_loop_sends_allowed (ok m ∷ rest) s p =
        let kept = serve_message-keeps m s p in
        let others = read_loop_sends_allowed rest (serve_message ch codec m s).1 kept in
        ground arith

-- A reply that carries the identifier of its request, or none where there was no request, and the
-- protocol's version.
abbrev pub IsReplyTo : Option String → Message → Type 0
IsReplyTo id m = (m.v ≡ protocol_version) × (m.id ≡ id)

-- The identifier of what a text parses to.
unfoldable pub id_of : Result Error Request → Option String
id_of (err e) = none
id_of (ok request) = request.id

module _ {S : Type 0} (ch : Channels S) where
  answer_payload-IsReplyTo :
      (id : Option String) (q : RequestPayload) (s : S) → IsReplyTo id (answer_payload ch id q s).0
  unfolding answer_payload reply
  answer_payload-IsReplyTo id (RequestPayload.transmit r) s = ground arith
  answer_payload-IsReplyTo id (RequestPayload.configure_rx c) s = ground arith
  answer_payload-IsReplyTo id RequestPayload.status s = ground arith

  -- The message that answers a text bears the protocol's version, and the identifier of the request
  -- that the text parses to, or none if it does not parse.
  pub dispatch-IsReplyTo :
      (codec : Codec) (t : String) (s : S)
      → IsReplyTo (id_of (codec.parse t)) (dispatch ch codec t s).0
  unfolding dispatch id_of error reply event
  dispatch-IsReplyTo codec t s = elim (codec.parse t) [
    | err e ↦ ground arith
    | ok request ↦
        let answered = answer_payload-IsReplyTo request.id request.payload s in ground arith
  ]
