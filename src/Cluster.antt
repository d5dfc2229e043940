-- ===== src/Cluster.antt =====
-- A frontend and the backends that answer its broadcasts. A datagram that has been sent may arrive
-- any number of times, late, or not at all; what does not fit the buffer of the receiver is cut off.
-- What protobuf writes and reads is a parameter.
pub mod Genuine
pub mod Steps
pub mod Safety
pub mod Round
use mathlib.Core.List.{Memᴰ}
use smartmet_engine_sputnik.Prelude.{
  take, take-of_le, length, ◌≤◌, ℕ, ◌≡◌, Bool, List, [], ◌∷◌, ◌++◌, Option, none, some, map,
}
use smartmet_engine_sputnik.Text.{Str}
use smartmet_engine_sputnik.Platform.{Platform}
use smartmet_engine_sputnik.Outcome.{ok}
use smartmet_engine_sputnik.Pause.{Pause}
use smartmet_engine_sputnik.Messages.{BroadcastMessage, BackendState, Shutdown}
use smartmet_engine_sputnik.Engine.{
  Frontend, Status, success, operation_aborted, failed, Answer, Endpoint, handle_backend_read,
}
use smartmet_engine_sputnik.Engine.Reach.{
  Step, read, deadline, answered, connected, chosen, removed,
}

-- The size of `itsReceiveBuffer`.
abbrev pub buffer_size : ℕ
buffer_size = 8192

-- What a receive leaves of a datagram in the buffer.
unfoldable pub received : Str → Str
received datagram = take buffer_size datagram

-- A datagram that fits the buffer.
abbrev pub Fits : Str → Type 0
Fits datagram = length datagram ≤ buffer_size

pub received-of_Fits : (datagram : Str) → Fits datagram → received datagram ≡ datagram
unfolding received
received-of_Fits datagram h = take-of_le buffer_size datagram h

-- The frontend, and the datagrams that have been sent so far.
pub record Cluster (P : Platform) : Type 0 where
  pub frontend : Frontend P
  pub requests : List Str
  pub replies : List Str

module _ (P : Platform) (serialize : BroadcastMessage P.Float → Str)
    (parse : Str → BroadcastMessage P.Float) where
  -- The buffer that `SerializeToString` fills, or leaves empty.
  abbrev pub buffer : Option (BroadcastMessage P.Float) → Str
  buffer none = []
  buffer (some message) = serialize message

  -- What an event at the frontend sends: the request, to each listener.
  unfoldable pub sent_by : {s s' : Frontend P} → Step P parse s s' → List Str
  sent_by (read status bytes stop r now again e) = []
  sent_by (deadline status r stop sending none e) = []
  sent_by (deadline status r stop sending (some (message, ends)) e) =
      map (λ (end : Endpoint). buffer message) ends
  sent_by (answered host port status) = []
  sent_by (connected host port) = []
  sent_by (chosen r request answer services e) = []
  sent_by (removed r host port uri services e) = []

  -- What the frontend reads is what it receives of one of the replies.
  unfoldable pub IsDelivered : List Str → {s s' : Frontend P} → Step P parse s s' → Type 0
  IsDelivered replies (read success bytes stop r now again e) =
      (datagram : Str) × Memᴰ datagram replies × (bytes ≡ received datagram)
  IsDelivered replies (read operation_aborted bytes stop r now again e) = Unit
  IsDelivered replies (read failed bytes stop r now again e) = Unit
  IsDelivered replies (deadline status r stop sending sent e) = Unit
  IsDelivered replies (answered host port status) = Unit
  IsDelivered replies (connected host port) = Unit
  IsDelivered replies (chosen r request answer services e) = Unit
  IsDelivered replies (removed r host port uri services e) = Unit

  -- What a backend sends; an empty buffer is not sent.
  abbrev pub sent_back : Answer P → List Str
  sent_back a = elim a.reply [ none ↦ [] | some message ↦ serialize message ∷ [] ]

  module _ (IsBackend : BackendState P.Float → Type 0) where
    -- An event at the frontend, or a backend that reads one of the requests.
    pub data Event (c : Cluster P) : Cluster P → Type 0 where
      at_frontend :
          {s : Frontend P} (step : Step P parse c.frontend s)
          → IsDelivered c.replies step
          → Event c (record c { frontend = s; requests = sent_by step ++ c.requests })
      at_backend :
          (b : BackendState P.Float) (datagram : Str) (stop stop' : Bool) (shutdown : Shutdown)
          (high : Bool) (now : ℕ) (p : Pause) (a : Answer P)
          → IsBackend b
          → Memᴰ datagram c.requests
          → handle_backend_read P parse success (received datagram) stop stop' shutdown high now b p
            ≡ ok a
          → Event c (record c { replies = sent_back a ++ c.replies })

    pub data Run (c : Cluster P) : Cluster P → Type 0 where
      begin : Run c c
      then : {d e : Cluster P} → Run c d → Event d e → Run c e
