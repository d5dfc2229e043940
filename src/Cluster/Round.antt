-- ===== src/Cluster/Round.antt =====
-- A round of a frontend, in which a backend hears the request and the frontend hears the reply.
pub mod Reading
pub mod Delivery
pub mod Found
pub mod Swept
pub mod Forgotten
use smartmet_engine_sputnik.Prelude.{
  ℕ, ◌≡◌, Bool, false, true, List, [], ◌∷◌, ◌++◌, Option, none, some, map,
}
use smartmet_engine_sputnik.Text.{Str}
use smartmet_engine_sputnik.Platform.{Platform}
use smartmet_engine_sputnik.Spine.{Reactor}
use smartmet_engine_sputnik.Outcome.{Result, ok, err, ◌>>=◌}
use smartmet_engine_sputnik.Pause.{Pause}
use smartmet_engine_sputnik.Messages.{BroadcastMessage, BackendState}
use smartmet_engine_sputnik.Engine.{
  Endpoint, Sending, Frontend, success, Sent, handle_deadline_timer, handle_frontend_read,
  handle_backend_read,
}
use smartmet_engine_sputnik.Cluster.{received, buffer, sent_back}

-- A datagram that a frontend reads, with the load of the backends and the time then.
pub record Arrival : Type 0 where
  pub reactor : Reactor
  pub now : ℕ
  pub bytes : Str

module _ (P : Platform) (serialize : BroadcastMessage P.Float → Str)
    (parse : Str → BroadcastMessage P.Float) where
  -- The frontend reads the datagrams in turn.
  unfoldable pub reads : List Arrival → Frontend P → Result (Frontend P)
  reads [] s = ok s
  reads (a ∷ later) s =
      handle_frontend_read P parse success a.bytes false a.reactor a.now s >>= λ (s', again).
      reads later s'

  -- The datagram of a request.
  abbrev pub asked : Option (Sent P) → Str
  asked none = []
  asked (some (message, ends)) = buffer P serialize parse message

  -- The deadline ends a round and starts the next; a backend hears its request; the frontend reads
  -- the reply, and other datagrams before and after it; the deadline ends this round too.
  abbrev pub round :
      (Endpoint → Bool)
      → Reactor
      → Reactor
      → ℕ
      → BackendState P.Float
      → Pause
      → List Arrival
      → (Reactor × ℕ)
      → List Arrival
      → Frontend P
      → Result (Frontend P)
  round takes r r' now b p before (reactor, later) after s =
      let sending : Sending = record { shutting_down = false; takes = takes } in
      handle_deadline_timer P success r false sending s >>= λ (s1, sent).
      handle_backend_read P parse success (received (asked sent)) false false
        (record { at_start = false; later = false }) false now b p
      >>= λ answer.
          reads
            (before
              ++ (map
                    (λ datagram. record {
                      reactor = reactor;
                      now = later;
                      bytes = received datagram;
                    })
                    (sent_back P serialize parse answer)
                  ++ after))
            s1
          >>= λ s2. handle_deadline_timer P success r' false sending s2 >>= λ (s3, sent'). ok s3
