-- ===== src/Server/Tasks/Delivery.antt =====
-- What reaches a client, through the forwarder and the writer of proxyd/src/server.rs, and which
-- streams are served.
use hackrf_proxy.Base.{
  ℕ, zero, suc, Bool, true, false, Option, none, some, List, [], ◌∷◌, ◌++◌, String, ◌≡◌, sym, ap,
  ◌∙◌, take, append_assoc, append-nil,
}
use hackrf_proxy.Base.Results.{Result, ok, err}
use hackrf_proxy.Base.Queue.{into}
use hackrf_proxy.Wire.{Message}
use hackrf_proxy.Server.Tasks.{
  RecvError, lagged, closed, forward, send_text, write_queued, writer, Accepted, accepted, shutdown,
  accept_loop,
}

-- The events that a subscription yields until it is closed.
abbrev pub heard : List (Result RecvError Message) → List Message
heard [] = []
heard (ok m ∷ rest) = m ∷ heard rest
heard (err (lagged n) ∷ rest) = heard rest
heard (err closed ∷ rest) = []

abbrev pub and_more : {A : Type 0} → Option A → List A → List A
and_more none xs = xs
and_more (some x) xs = x ∷ xs

-- The texts of the messages that have one.
abbrev pub encoded : (Message → Option String) → List Message → List String
encoded encode [] = []
encoded encode (m ∷ ms) = and_more (encode m) (encoded encode ms)

forward-kept :
    (rs : List (Result RecvError Message)) (kept : List Message) (n : ℕ)
    → (forward into rs (kept, n)).0 ≡ kept ++ take n (heard rs)
unfolding forward
forward-kept [] kept zero = sym (append-nil kept)
forward-kept [] kept (suc n) = sym (append-nil kept)
forward-kept (ok m ∷ rest) kept zero = sym (append-nil kept)
forward-kept (ok m ∷ rest) kept (suc n) =
    forward-kept rest (kept ++ m ∷ []) n ∙ append_assoc kept (m ∷ []) (take n (heard rest))
forward-kept (err (lagged missed) ∷ rest) kept n = forward-kept rest kept n
forward-kept (err closed ∷ rest) kept zero = sym (append-nil kept)
forward-kept (err closed ∷ rest) kept (suc n) = sym (append-nil kept)

-- A message that may have no text, in front of the rest of the loop.
send_text-kept :
    (o : Option String) (next : List String × ℕ → List String × ℕ) (more kept : List String) (n : ℕ)
    → ((l : List String) (k : ℕ) → (next (l, k)).0 ≡ l ++ take k more)
    → (send_text into o next (kept, n)).0 ≡ kept ++ take n (and_more o more)
unfolding send_text
send_text-kept none next more kept n h = h kept n
send_text-kept (some json) next more kept zero h = sym (append-nil kept)
send_text-kept (some json) next more kept (suc n) h =
    h (kept ++ json ∷ []) n ∙ append_assoc kept (json ∷ []) (take n more)

module _ (encode : Message → Option String) where
  write_queued-kept :
      (ms : List Message) (kept : List String) (n : ℕ)
      → (write_queued encode into ms (kept, n)).0 ≡ kept ++ take n (encoded encode ms)
  unfolding write_queued
  write_queued-kept [] kept zero = sym (append-nil kept)
  write_queued-kept [] kept (suc n) = sym (append-nil kept)
  write_queued-kept (m ∷ ms) kept n =
      send_text-kept (encode m) (write_queued encode into ms) (encoded encode ms) kept n
        (λ l k. write_queued-kept ms l k)

  -- A sink that is closed takes nothing more.
  abbrev pub closing : List String × ℕ → List String × ℕ
  closing (kept, n) = (kept, 0)

  -- Where only events are queued, a client is sent the texts of the events that its subscription
  -- yields, all and in order, up to where the subscription is closed, its queue is gone (after `n`
  -- messages) or its socket is gone (after `k`); lagging ends nothing. Then the sink is closed.
  pub forward-writer :
      (rs : List (Result RecvError Message)) (n k : ℕ)
      → writer encode into closing (forward into rs ([], n)).0 ([], k)
        ≡ (take k (encoded encode (take n (heard rs))), 0)
  unfolding writer
  forward-writer rs n k =
      ap (λ ms. ((write_queued encode into ms ([], k)).0, 0)) (forward-kept rs [] n)
      ∙ ap (λ l. (l, 0)) (write_queued-kept (take n (heard rs)) [] k)

module _ {Stream : Type 0} where
  -- The streams that are accepted before the shutdown, and whether there is one.
  abbrev pub streams : List (Accepted Stream) → List Stream
  streams [] = []
  streams (accepted (ok s) ∷ rest) = s ∷ streams rest
  streams (accepted (err e) ∷ rest) = streams rest
  streams (shutdown ∷ rest) = []

  abbrev pub shuts_down : List (Accepted Stream) → Bool
  shuts_down [] = false
  shuts_down (accepted r ∷ rest) = shuts_down rest
  shuts_down (shutdown ∷ rest) = true

  -- The accept loop serves every stream that is accepted before the shutdown, in order, and returns
  -- exactly when it is shut down; an accept that fails ends nothing.
  pub accept_loop-streams :
      (events : List (Accepted Stream)) (served : List Stream)
      → accept_loop (λ s l. l ++ s ∷ []) events served
        ≡ (shuts_down events, served ++ streams events)
  unfolding accept_loop
  accept_loop-streams [] served = ap (λ l. (false, l)) (sym (append-nil served))
  accept_loop-streams (accepted (ok s) ∷ rest) served =
      accept_loop-streams rest (served ++ s ∷ [])
      ∙ ap (λ l. (shuts_down rest, l)) (append_assoc served (s ∷ []) (streams rest))
  accept_loop-streams (accepted (err e) ∷ rest) served = accept_loop-streams rest served
  accept_loop-streams (shutdown ∷ rest) served = ap (λ l. (true, l)) (sym (append-nil served))
