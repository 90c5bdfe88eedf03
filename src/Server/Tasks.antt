-- ===== src/Server/Tasks.antt =====
-- The tasks around a connection's read loop, `serve` and `connection` of proxyd/src/server.rs: the
-- accept loop, the forwarder of events, the writer, and what is cleaned up at the end. What a queue
-- or a socket yields is a list, up to where the task is aborted; the state `S` is a parameter.
pub mod Delivery
use hackrf_proxy.Base.{ℕ, Bool, true, false, Option, none, some, List, [], ◌∷◌, String}
use hackrf_proxy.Base.Results.{Error, Result, ok, err}
use hackrf_proxy.Wire.{Message}
use hackrf_proxy.Server.{Codec, Channels, WsMessage, read_loop}

-- `broadcast::error::RecvError`
pub data RecvError : Type 0 where
  lagged : ℕ → RecvError
  closed : RecvError

module _ {S : Type 0} (send : Message → S → Bool × S) where
  -- The forwarder's loop.
  unfoldable pub forward : List (Result RecvError Message) → S → S
  forward [] s = s
  forward (ok message ∷ rest) s =
      let (sent, s') = send message s in elim sent [ true ↦ forward rest s' | false ↦ s' ]
  forward (err (lagged missed) ∷ rest) s = forward rest s
  forward (err closed ∷ rest) s = s

-- A text is sent, if there is one, and the loop goes on with `next` unless the socket is gone.
unfoldable pub send_text : {S : Type 0} → (String → S → Bool × S) → Option String → (S → S) → S → S
send_text send none next s = next s
send_text send (some json) next s =
    let (sent, s') = send json s in elim sent [ true ↦ next s' | false ↦ s' ]

module _ {S : Type 0} (encode : Message → Option String) (send : String → S → Bool × S) where
  -- The writer's loop; `serde_json::to_string` is `encode`.
  unfoldable pub write_queued : List Message → S → S
  unfolding send_text
  write_queued [] s = s
  write_queued (message ∷ rest) s = send_text send (encode message) (write_queued rest) s

  -- The writer, which closes the sink however its loop ended.
  unfoldable pub writer : (S → S) → List Message → S → S
  unfolding write_queued
  writer close queued s = close (write_queued queued s)

-- `accept_async`, the spawning of the two tasks, and the end of a connection: the sender is dropped,
-- the forwarder is aborted and the writer is awaited.
pub record Tasks (S : Type 0) : Type 0 where
  pub handshake : S → Result Error (Unit {0}) × S
  pub spawn_tasks : S → S
  pub drop_outbound : S → S
  pub abort_forwarder : S → S
  pub join_writer : S → S

unfoldable pub connection :
    {S : Type 0}
    → Channels S
    → Codec
    → Tasks S
    → List (Result Error WsMessage)
    → S
    → Result Error (Unit {0}) × S
connection ch codec tasks frames s =
    let (shaken, s₁) = tasks.handshake s in
    elim shaken [
      | err e ↦ (err e, s₁)
      | ok u ↦
          let (outcome, s₂) = read_loop ch codec frames (tasks.spawn_tasks s₁) in
          (outcome, tasks.join_writer (tasks.abort_forwarder (tasks.drop_outbound s₂)))
    ]

-- What `select!` in the accept loop yields.
pub data Accepted (Stream : Type 0) : Type 0 where
  accepted : Result Error Stream → Accepted Stream
  shutdown : Accepted Stream

module _ {S Stream : Type 0} (spawn : Stream → S → S) where
  -- The accept loop; the Boolean says whether it returned, which it does with `Ok`.
  unfoldable pub accept_loop : List (Accepted Stream) → S → Bool × S
  accept_loop [] s = (false, s)
  accept_loop (accepted (ok stream) ∷ rest) s = accept_loop rest (spawn stream s)
  accept_loop (accepted (err e) ∷ rest) s = accept_loop rest s
  accept_loop (shutdown ∷ rest) s = (true, s)
