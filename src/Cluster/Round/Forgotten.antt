-- ===== src/Cluster/Round/Forgotten.antt =====
-- What a frontend forgets in a round in which it has heard of some backend: the backends that did
-- not answer, and those that answered too late.
use smartmet_engine_sputnik.Prelude.{
  All-imply, All-Mem, ◌+◌, ◌%◌, ◌^◌, ◌<◌, ◌≡◌, ◌≢◌, refl, sym, ap, ◌∙◌, inl, inr, ◌⊎◌, List, [],
  ◌∷◌, none, some, All, pos,
}
use smartmet_engine_sputnik.Text.{Str}
use smartmet_engine_sputnik.Platform.{Platform, IsRandom}
use smartmet_engine_sputnik.Spine.{Reactor, Request}
use smartmet_engine_sputnik.Outcome.{Returns}
use smartmet_engine_sputnik.Backend.{BackendService}
use smartmet_engine_sputnik.Services.{get_service}
use smartmet_engine_sputnik.Services.Provided.{provided}
use smartmet_engine_sputnik.Services.Listed.{Lists, get_service-Picks}
use smartmet_engine_sputnik.Messages.{BroadcastMessage, service_of, server_of}
use smartmet_engine_sputnik.Engine.Punctual.{IsOrderly}
use smartmet_engine_sputnik.Engine.{Sending, Frontend}
use smartmet_engine_sputnik.Cluster.Round.{Arrival}
use smartmet_engine_sputnik.Cluster.Round.Reading.{IsHarmless}
use smartmet_engine_sputnik.Cluster.Round.Swept.{hearing_round, responses, hearing_round-Swept}

module _ (P : Platform) (serialize : BroadcastMessage P.Float → Str)
    (parse : Str → BroadcastMessage P.Float) where
  module _ (laws : IsRandom P) where
    -- If random draws are in the documented ranges: let a frontend be orderly, which means that it
    -- is sound, allows fewer than 65534 cycles without a response, and lists only services of the
    -- rounds since it last removed some, older ones first and in step with the forwarders. In a
    -- round in which it reads at least one response and fewer than 2^32, with no negative throttle
    -- in any datagram, and none that has the name of a certain host, all the calls return, no
    -- service that is listed at the end is on this host, and `getService` returns none of it.
    pub hearing_round-Forgets :
        (sending : Sending) (r r' r'' : Reactor) (arrivals : List Arrival) (host : Str)
        (s : Frontend P) (request : Request)
        → IsOrderly P s
        → All (λ a. IsHarmless P serialize parse (parse a.bytes)) arrivals
        → All (λ a. (parse a.bytes).name ≢ host) arrivals
        → 0 < responses P serialize parse arrivals
        → responses P serialize parse arrivals < 2 ^ 32
        → Returns (hearing_round P serialize parse sending r r' arrivals s) (λ s'.
          Lists P (λ key b. b.backend.name ≢ host) s'.services
          × Returns (get_service P r'' request s'.services) (λ (answer, services).
            (answer ≡ none)
            ⊎ ((b : BackendService P.Float) × (answer ≡ some b) × (b.backend.name ≢ host))))
    unfolding service_of server_of
    hearing_round-Forgets sending r r' r'' arrivals host s request v h other some_response few =
        let (s3, run, (v3, spared)) =
          hearing_round-Swept P serialize parse (λ b. b.backend.name ≢ host) sending r r' arrivals s
            v h
            (All-imply (λ a. (parse a.bytes).name ≢ host) _
              (λ a apart b uri known q. λ e. apart (sym (ap (λ x. x.backend.name) known.same) ∙ e))
              arrivals other)
            some_response few in
        let (out, chosen, found) = get_service-Picks P laws r'' request s3.services v3.valid in
        (
          s3,
          run,
          (
            spared,
            (
              out,
              chosen,
              elim found [
                | inl nothing ↦ inl nothing.0
                | inr (b, e, i) ↦ inr (b, e, All-Mem _ _ (spared _) i)
              ],
            ),
          ),
        )

  All-false : {A : Type 0} (xs : List A) → All (λ x. ⊥) xs → xs ≡ []
  All-false [] a = refl
  All-false (x ∷ xs) a = absurd (a.0)

  -- Let a frontend be orderly, which means that it is sound, allows fewer than 65534 cycles
  -- without a response, and lists only services of the rounds since it last removed some, older
  -- ones first and in step with the forwarders. If all that it reads in a round comes late, which
  -- is to say has not the number of this round, and at least one and fewer than 2^32 of the
  -- datagrams are responses, without a negative throttle in any, then all the calls return, and
  -- no URI lists any service in the end.
  pub hearing_round-late :
      (sending : Sending) (r r' : Reactor) (arrivals : List Arrival) (s : Frontend P)
      → IsOrderly P s
      → All (λ a. IsHarmless P serialize parse (parse a.bytes)) arrivals
      → All (λ a. (parse a.bytes).seqnum ≢ pos ((s.frontend_sequence + 1) % 65535)) arrivals
      → 0 < responses P serialize parse arrivals
      → responses P serialize parse arrivals < 2 ^ 32
      → Returns
          (hearing_round P serialize parse sending r r' arrivals s)
          (λ s'. (key : Str) → provided P s'.services key ≡ [])
  unfolding service_of
  hearing_round-late sending r r' arrivals s v h late some_response few =
      let (s3, run, (v3, spared)) =
        hearing_round-Swept P serialize parse (λ b. ⊥) sending r r' arrivals s v h
          (All-imply (λ a. (parse a.bytes).seqnum ≢ pos ((s.frontend_sequence + 1) % 65535)) _
            (λ a apart b uri known q. apart (sym (ap (λ x. x.sequence_number) known.same) ∙ q))
            arrivals late)
          some_response few in
      (s3, run, λ key. All-false (provided P s3.services key) (spared key))
