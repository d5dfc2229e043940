-- ===== src/Cluster/Round/Reading.antt =====
-- What reading keeps of a frontend, whatever the datagrams are.
use mathlib.Core.List.{Memᴰ}
use mathlib.Core.Path.{subst}
use smartmet_engine_sputnik.Prelude.{
  Mem-append_left, arith, not, ◌+◌, ◌%◌, ◌^◌, if◌then◌else◌, ℕ, ◌≡◌, ◌≢◌, refl, sym, ◌∙◌, inl, inr,
  ◌⊎◌, Bool, false, List, [], ◌∷◌, ◌++◌, none, some, All, is_empty, Bool-cases, Option-cases, pos,
}
use smartmet_engine_sputnik.Text.{Str}
use smartmet_engine_sputnik.Platform.{Platform}
use smartmet_engine_sputnik.Spine.{Reactor}
use smartmet_engine_sputnik.Outcome.{Result-cases, ok, ◌>>=◌}
use smartmet_engine_sputnik.Backend.{BackendService}
use smartmet_engine_sputnik.Services.{Services, add_backend_info_request}
use smartmet_engine_sputnik.Services.Provided.{provided, provided-add_service}
use smartmet_engine_sputnik.Messages.{
  BroadcastMessage, MessageType, service_discovery_request, service_discovery_beacon, throttle_of,
  process_reply, service_discovery_reply,
}
use smartmet_engine_sputnik.Messages.Discovery.{process_reply-provided, process_reply-ignored}
use smartmet_engine_sputnik.Messages.Keeping.{IsKept, Leaves, keep-process_reply}
use smartmet_engine_sputnik.Messages.Validity.{LeavesValid, process_reply-LeavesValid}
use smartmet_engine_sputnik.Engine.Reach.{with_services-IsSound}
use smartmet_engine_sputnik.Engine.Cycle.{IsSound}
use smartmet_engine_sputnik.Engine.{Frontend, success, handle_frontend_read}
use smartmet_engine_sputnik.Cluster.Round.{Arrival, reads}

module _ (P : Platform) (serialize : BroadcastMessage P.Float → Str)
    (parse : Str → BroadcastMessage P.Float) where
  -- A message whose throttle, if it has one, is not negative.
  abbrev pub IsHarmless : BroadcastMessage P.Float → Type 0
  IsHarmless message = elim message.host [
    | none ↦ Unit
    | some host ↦ (t : ℕ) × (throttle_of host ≡ pos t)
  ]

  -- Does the message count as a response?
  abbrev pub is_response : BroadcastMessage P.Float → Bool
  is_response message = elim message.message_type [
    | service_discovery_request ↦ false
    | service_discovery_beacon ↦ false
    | service_discovery_reply ↦ elim message.host [
      | none ↦ false
      | some host ↦ not (is_empty message.services)
    ]
  ]

  message_type-cases :
      (t : MessageType) → (t ≡ service_discovery_reply) ⊎ (t ≢ service_discovery_reply)
  message_type-cases service_discovery_request = inr (λ e. cc)
  message_type-cases service_discovery_reply = inl refl
  message_type-cases service_discovery_beacon = inr (λ e. cc)

  pub process_reply-returns :
      (r : Reactor) (now : ℕ) (message : BroadcastMessage P.Float) (received : ℕ) (s : Services P)
      → IsHarmless message
      → (s' : Services P) × (process_reply P false r now message (s, received)
          ≡ ok (s', (if is_response message then (received + 1) % 2 ^ 32 else received)))
  process_reply-returns r now message received s h =
      elim (message_type-cases message.message_type) [
        | inr n ↦ (
          s,
          process_reply-ignored P r now false message received s (inr (inl n)) ∙ ground (arith, n),
        )
        | inl t ↦ elim (Option-cases message.host) [
          | inl e ↦ (
            s,
            process_reply-ignored P r now false message received s (inr (inr (inl e)))
                ∙ ground (arith, t, e),
          )
          | inr (host, e) ↦ elim (Bool-cases (is_empty message.services)) [
            | inl nil ↦ (
              s,
              process_reply-ignored P r now false message received s (inr (inr (inr nil)))
                  ∙ ground (arith, t, e, nil),
            )
            | inr filled ↦
                let (throttle, q) : (t : ℕ) × (throttle_of host ≡ pos t) = rw e at h in
                let (s', run, lists) =
                  process_reply-provided P r now message host throttle received s (t, e, filled)
                    q in
                (s', run ∙ ground (arith, t, e, filled))
          ]
        ]
      ]

  -- What reading leaves of a frontend: it is sound, in the same round, and lists what it listed.
  pub record Keeps (s s' : Frontend P) : Type 0 where
    pub sound : IsSound P s'
    pub same_round : s'.frontend_sequence ≡ s.frontend_sequence
    pub lists :
        (key : Str) (b : BackendService P.Float)
        → Memᴰ b (provided P s.services key)
        → Memᴰ b (provided P s'.services key)

  Listing-IsKept :
      (key : Str) (b : BackendService P.Float) (r : Reactor) (now : ℕ)
      (message : BroadcastMessage P.Float)
      → IsKept P (λ s. Memᴰ b (provided P s key)) r now message
  Listing-IsKept key b r now message = record {
    by_service = λ x uri load throttle s known i.
        subst (Memᴰ b) (sym (provided-add_service P r now x uri load throttle s key))
          (Mem-append_left (provided P s key) _ i);
    by_request = λ q s i. unfold add_backend_info_request in i;
  }

  pub read-Keeps :
      (a : Arrival) (s : Frontend P) (services : Services P) (received : ℕ)
      → IsSound P s
      → process_reply P false a.reactor a.now (parse a.bytes) (s.services, s.received_responses)
        ≡ ok (services, received)
      → Keeps s (record s { services = services; received_responses = received })
  read-Keeps a s services received v e = record {
    sound = with_services-IsSound P s services received v (
        subst (LeavesValid P) e (
          process_reply-LeavesValid P false a.reactor a.now (parse a.bytes) s.received_responses
            s.services v.valid));
    same_round = refl;
    lists = λ key b i. subst (Leaves P (λ s. Memᴰ b (provided P s key))) e (
        keep-process_reply P _ a.reactor a.now (parse a.bytes)
          (Listing-IsKept key b a.reactor a.now (parse a.bytes)) false s.received_responses
          s.services i);
  }

  pub reads-Keeps :
      (arrivals : List Arrival) (s : Frontend P)
      → IsSound P s
      → All (λ a. IsHarmless (parse a.bytes)) arrivals
      → (s' : Frontend P) × (reads P serialize parse arrivals s ≡ ok s') × Keeps s s'
  unfolding reads handle_frontend_read
  reads-Keeps [] s v h = (s, refl, record { sound = v; same_round = refl; lists = λ key b i. i })
  reads-Keeps (a ∷ later) s v h =
      let (services, run) =
        process_reply-returns a.reactor a.now (parse a.bytes) s.received_responses s.services h.0 in
      let w = read-Keeps a s services _ v run in
      let (s', run', w') = reads-Keeps later _ w.sound h.1 in
      (
        s',
        rw run run',
        record {
          sound = w'.sound;
          same_round = w'.same_round;
          lists = λ key b i. w'.lists key b (w.lists key b i);
        },
      )

  pub reads-append :
      (xs ys : List Arrival) (s : Frontend P)
      → reads P serialize parse (xs ++ ys) s
        ≡ (reads P serialize parse xs s >>= λ s'. reads P serialize parse ys s')
  unfolding reads
  reads-append [] ys s = refl
  reads-append (a ∷ xs) ys s =
      elim (Result-cases (handle_frontend_read P parse success a.bytes false a.reactor a.now s)) [
        | inl ((s', again), e) ↦ rw e (reads-append xs ys s')
        | inr (x, e) ↦ rw e refl
      ]
