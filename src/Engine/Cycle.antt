-- ===== src/Engine/Cycle.antt =====
-- The discovery cycle of a frontend: sequence numbers, skipped cycles, and when services go.
use mathlib.Core.Path.{subst}
use smartmet_engine_sputnik.Prelude.{
  ◌+◌, ◌%◌, ◌^◌, ◌≤◌, ◌<◌, ◌≡◌, refl, sym, ◌⊎◌, Bool, true, false, List, [], ◌∷◌, none, some, ltb,
  ap, ◌∙◌, ℕ, ◌&&◌, Option, as_unsigned, if◌then◌else◌, Bool-cases, inl, inr, pos, arith,
}
use smartmet_engine_sputnik.Platform.{Platform}
use smartmet_engine_sputnik.Spine.{Reactor}
use smartmet_engine_sputnik.Text.{Str, split_at}
use smartmet_engine_sputnik.Outcome.{Result, Result-cases, ok, err, Returns, ◌>>=◌}
use smartmet_engine_sputnik.Messages.{
  cast_int, send_discovery_request, BroadcastMessage, service_discovery_request,
}
use smartmet_engine_sputnik.Services.Validity.{IsValid, latest_sequence-IsValid}
use smartmet_engine_sputnik.Services.{latest_sequence}
use smartmet_engine_sputnik.Engine.{
  Sending, sends_all, Frontend, Endpoint, Status, success, operation_aborted, failed, endpoints,
  start_service_discovery, clean_and_reset, finish_cycle, handle_deadline_timer, Sent,
}

module _ (P : Platform) where
  -- The destinations of the requests; none, if a port of a listener cannot be read.
  abbrev pub ends_of : Result (List Endpoint) → List Endpoint
  ends_of r = elim r [ ok ends ↦ ends | err e ↦ [] ]

  abbrev pub targets : Sending → Frontend P → List Endpoint
  targets sending s = ends_of (endpoints P sending.takes s.backend_udp_listeners)

  -- If the loop ends when nothing fails, it ends when sending fails.
  pub endpoints-ends_of :
      (takes : Endpoint → Bool) (sts : List Str)
      → endpoints P (λ end. true) sts ≡ ok (ends_of (endpoints P (λ end. true) sts))
      → endpoints P takes sts ≡ ok (ends_of (endpoints P takes sts))
  unfolding endpoints
  endpoints-ends_of takes [] h = refl
  endpoints-ends_of takes (st ∷ sts) h = elim (Result-cases (endpoints P (λ end. true) sts)) [
    | inl (ends, e) ↦ ground (arith, h, e, endpoints-ends_of takes sts)
    | inr (x, e) ↦ ground (arith, h, e)
  ]

  -- The listeners that have a port, as addresses and ports; the address of one may be bad.
  abbrev pub named : List Str → List Endpoint
  named [] = []
  named (st ∷ sts) =
      let rest = named sts in
      elim (split_at b':' st) [
        | none ↦ rest
        | some (addr, port) ↦
            (addr, as_unsigned 16 (elim (P.stoi port) [ none ↦ pos 0 | some n ↦ n ])) ∷ rest
      ]

  -- Those in front of the first that fails the test.
  abbrev pub take_while : (Endpoint → Bool) → List Endpoint → List Endpoint
  take_while p [] = []
  take_while p (end ∷ ends) = let rest = take_while p ends in if p end then end ∷ rest else []

  -- Where a request goes: to the named listeners, in their order, up to the first whose address is
  -- bad or to which the socket does not send.
  abbrev pub reached : (Endpoint → Bool) → List Str → List Endpoint
  reached takes sts = take_while (λ end. P.is_address end.0 && takes end) (named sts)

  endpoints-reached :
      (takes : Endpoint → Bool) (sts : List Str) {ends : List Endpoint}
      → endpoints P takes sts ≡ ok ends
      → ends ≡ reached takes sts
  unfolding endpoints
  endpoints-reached takes [] e = ground (arith, e)
  endpoints-reached takes (st ∷ sts) e = elim (Result-cases (endpoints P takes sts)) [
    | inl (rest, h) ↦ ground (arith, e, h, endpoints-reached takes sts h)
    | inr (x, h) ↦ ground (arith, e, h)
  ]

  -- What holds of a frontend between two handlers. (At the largest limit of skipped cycles, 2^32 -
  -- 1, the counter would wrap before it gets above the limit.)
  pub record IsSound (s : Frontend P) : Type 0 where
    pub sequence_range : s.frontend_sequence < 65535
    pub skipped_range : s.skipped_cycles ≤ s.max_skipped_cycles
    pub max_range : s.max_skipped_cycles + 1 < 2 ^ 32
    pub valid : IsValid P s.services
    pub destinations : endpoints P (λ end. true) s.backend_udp_listeners ≡ ok (targets sends_all s)

  -- The result of a cycle that cleans, and of one that does not.
  abbrev pub cleaned : Reactor → Frontend P → Frontend P
  cleaned r s = record s {
    services = latest_sequence P r (pos s.frontend_sequence) s.services;
    received_responses = 0;
    skipped_cycles = 0;
  }

  abbrev pub skipped : Frontend P → Frontend P
  skipped s = record s { received_responses = 0; skipped_cycles = s.skipped_cycles + 1 }

  clean_and_reset-cleaned :
      (r : Reactor) (s : Frontend P)
      → s.frontend_sequence < 65535
      → clean_and_reset P r s ≡ ok (cleaned r s)
  unfolding clean_and_reset cast_int
  clean_and_reset-cleaned r s h = ground arith

  -- The part of a cycle before the sleep.
  abbrev pub finished : Reactor → Frontend P → Frontend P
  finished r s =
      if ltb 0 s.received_responses
      then cleaned r s
      else if ltb s.skipped_cycles s.max_skipped_cycles
      then skipped s
      else cleaned r s

  pub finish_cycle-finished :
      (r : Reactor) (s : Frontend P) → IsSound s → finish_cycle P r s ≡ ok (finished r s)
  unfolding finish_cycle
  finish_cycle-finished r s v = ground (arith, clean_and_reset-cleaned r s v.sequence_range)

  pub finished-IsSound : (r : Reactor) (s : Frontend P) → IsSound s → IsSound (finished r s)
  finished-IsSound r s v =
      let v' : IsSound (cleaned r s) = record {
        sequence_range = v.sequence_range;
        skipped_range = omega arith;
        max_range = v.max_range;
        valid = latest_sequence-IsValid P r (pos s.frontend_sequence) s.services v.valid;
        destinations = v.destinations;
      } in
      elim (Bool-cases (ltb 0 s.received_responses)) [
        | inl e ↦ rw e v'
        | inr e ↦ elim (Bool-cases (ltb s.skipped_cycles s.max_skipped_cycles)) [
          | inl l ↦
              rw (e, l)
                (record {
                  sequence_range = v.sequence_range;
                  skipped_range = ground arith;
                  max_range = v.max_range;
                  valid = v.valid;
                  destinations = v.destinations;
                })
          | inr g ↦ rw (e, g) v'
        ]
      ]

  abbrev pub next : Frontend P → Frontend P
  next s = record s { frontend_sequence = (s.frontend_sequence + 1) % 65535 }

  pub next-IsSound : (s : Frontend P) → IsSound s → IsSound (next s)
  next-IsSound s v = record {
    sequence_range = omega arith;
    skipped_range = v.skipped_range;
    max_range = v.max_range;
    valid = v.valid;
    destinations = v.destinations;
  }

  abbrev pub request_sent : Sending → Frontend P → Sent P
  request_sent sending s = (
    send_discovery_request P.Float sending.shutting_down s.hostname (pos s.frontend_sequence),
    targets sending s,
  )

  pub start_service_discovery-next :
      (sending : Sending) (s : Frontend P)
      → endpoints P (λ end. true) s.backend_udp_listeners ≡ ok (targets sends_all s)
      → start_service_discovery P sending s ≡ ok (next s, request_sent sending (next s))
  unfolding start_service_discovery cast_int
  start_service_discovery-next sending s h =
      ground (arith, endpoints-ends_of sending.takes s.backend_udp_listeners h)

  -- A request, by the names of its fields.
  abbrev pub asking : Bool → Str → ℕ → Option (BroadcastMessage P.Float)
  asking shutting_down hostname sequence =
      if shutting_down
      then none
      else some (record {
        name = hostname;
        message_type = service_discovery_request;
        seqnum = pos sequence;
        host = none;
        services = [];
        info_queries = [];
      })

  pub request_sent-asking :
      (sending : Sending) (s : Frontend P)
      → endpoints P (λ end. true) s.backend_udp_listeners ≡ ok (targets sends_all s)
      → request_sent sending s ≡ (
        asking sending.shutting_down s.hostname s.frontend_sequence,
        reached sending.takes s.backend_udp_listeners,
      )
  unfolding send_discovery_request
  request_sent-asking sending s h =
      ap
        (λ (ends : List Endpoint).
          (asking sending.shutting_down s.hostname s.frontend_sequence, ends))
        (endpoints-reached sending.takes s.backend_udp_listeners
          (endpoints-ends_of sending.takes s.backend_udp_listeners h))

  finished-same :
      (r : Reactor) (s : Frontend P)
      → ((finished r s).frontend_sequence ≡ s.frontend_sequence)
        × ((finished r s).hostname ≡ s.hostname)
        × ((finished r s).backend_udp_listeners ≡ s.backend_udp_listeners)
  finished-same r s = (ground arith, ground arith, ground arith)

  pub handle_deadline_timer-next :
      (r : Reactor) (sending : Sending) (s : Frontend P)
      → IsSound s
      → handle_deadline_timer P success r false sending s
        ≡ ok (next (finished r s), some (request_sent sending (next (finished r s))))
  unfolding handle_deadline_timer
  handle_deadline_timer-next r sending s v = rw (finish_cycle-finished r s v) (
      rw (start_service_discovery-next sending (finished r s) (finished-IsSound r s v).destinations)
        refl)

  -- A deadline that expires in a sound state, with no shutdown seen after the sleep, is handled
  -- without an exception. If a response has come since the last one, or if the limit of cycles
  -- without one is reached, the services that are not of this round go and the count of such cycles
  -- starts anew; otherwise the count goes up and the services stay. Then the next round starts: a
  -- request with its number, up to 65534, and the host name, or nothing if the server is then
  -- shutting down, is sent to the listeners that name a port, up to the first whose address is bad
  -- or to which the socket does not send.
  pub handle_deadline_timer-round :
      (r : Reactor) (sending : Sending) (s : Frontend P)
      → IsSound s
      → handle_deadline_timer P success r false sending s
        ≡ ok (
          record (finished r s) { frontend_sequence = (s.frontend_sequence + 1) % 65535 },
          some (
            asking sending.shutting_down s.hostname ((s.frontend_sequence + 1) % 65535),
            reached sending.takes s.backend_udp_listeners,
          ),
        )
  handle_deadline_timer-round r sending s v =
      let (sequence, same, hears) = finished-same r s in
      handle_deadline_timer-next r sending s v
      ∙ ap (λ sent. ok (next (finished r s), some sent))
          (request_sent-asking sending (next (finished r s)) (finished-IsSound r s v).destinations)
      ∙ rw (sequence, same, hears) refl

  -- The states in which the handler of the timer may leave a frontend.
  abbrev pub AfterDeadline : Reactor → Frontend P → Frontend P → Type 0
  AfterDeadline r s t = (t ≡ s) ⊎ (t ≡ finished r s) ⊎ (t ≡ next (finished r s))

  -- Both for a timer that expires and for one that fails.
  deadline_body-After :
      (r : Reactor) (stop : Bool) (sending : Sending) (s : Frontend P)
      → IsSound s
      → Returns
          (finish_cycle P r s >>= λ s'.
            if stop
            then ok (s', none)
            else start_service_discovery P sending s' >>= λ (s'', sent). ok (s'', some sent))
          (λ (t, sent). AfterDeadline r s t)
  deadline_body-After r true sending s v =
      ((finished r s, none), rw (finish_cycle-finished r s v) refl, inr (inl refl))
  deadline_body-After r false sending s v = (
    (next (finished r s), some (request_sent sending (next (finished r s)))),
    rw (finish_cycle-finished r s v) (
        rw
          (start_service_discovery-next sending (finished r s)
            (finished-IsSound r s v).destinations)
          refl),
    inr (inr refl),
  )

  pub handle_deadline_timer-After :
      (status : Status) (r : Reactor) (stop : Bool) (sending : Sending) (s : Frontend P)
      → IsSound s
      → Returns (handle_deadline_timer P status r stop sending s) (λ (t, sent). AfterDeadline r s t)
  unfolding handle_deadline_timer
  handle_deadline_timer-After operation_aborted r stop sending s v = ((s, none), refl, inl refl)
  handle_deadline_timer-After success r stop sending s v = deadline_body-After r stop sending s v
  handle_deadline_timer-After failed r stop sending s v = deadline_body-After r stop sending s v

  -- A frontend stays sound, whatever the timer reports and whenever the server is shut down.
  pub handle_deadline_timer-IsSound :
      (status : Status) (r : Reactor) (stop : Bool) (sending : Sending) (s : Frontend P)
      → IsSound s
      → Returns (handle_deadline_timer P status r stop sending s) (λ (s', sent). IsSound s')
  handle_deadline_timer-IsSound status r stop sending s v =
      let ((t, sent), run, after) = handle_deadline_timer-After status r stop sending s v in
      (
        (t, sent),
        run,
        elim after [
          | inl e ↦ subst IsSound (sym e) v
          | inr (inl e) ↦ subst IsSound (sym e) (finished-IsSound r s v)
          | inr (inr e) ↦
              subst IsSound (sym e) (next-IsSound (finished r s) (finished-IsSound r s v))
        ],
      )
