-- ===== src/Cluster/Round/Delivery.antt =====
-- A backend's reply among the datagrams of a round.
use mathlib.Core.List.{Memᴰ}
use mathlib.Core.Path.{subst}
use smartmet_engine_sputnik.Prelude.{
  is_empty-map_Mem, Mem-keep, Mem-if, Mem-append_right, Mem-append_left, ℕ, ◌+◌, ◌%◌, ◌^◌, ◌≡◌,
  refl, sym, ◌∙◌, inl, inr, ◌⊎◌, Bool, false, List, [], ◌∷◌, ◌++◌, All, map, if◌then◌else◌,
  Bool-cases, ltb, pos, ℤ, int_eq_iff,
}
use smartmet_engine_sputnik.Text.{Str, str_eq}
use smartmet_engine_sputnik.Text.Order.{str_eq_iff}
use smartmet_engine_sputnik.Platform.{Platform}
use smartmet_engine_sputnik.Spine.{Reactor}
use smartmet_engine_sputnik.Outcome.{ok}
use smartmet_engine_sputnik.Backend.{BackendService}
use smartmet_engine_sputnik.Services.{Services, is_latest, latest_sequence}
use smartmet_engine_sputnik.Services.Provided.{provided, provided-latest_sequence}
use smartmet_engine_sputnik.Messages.{
  BroadcastMessage, BackendState, HostInfo, process_reply, discovery_reply, reply_service,
  direct_uri, service_of, server_of,
}
use smartmet_engine_sputnik.Messages.Discovery.{announced, process_reply-provided}
use smartmet_engine_sputnik.Engine.Cycle.{IsSound, finished}
use smartmet_engine_sputnik.Engine.{Frontend, handle_frontend_read}
use smartmet_engine_sputnik.Cluster.Genuine.{host_of}
use smartmet_engine_sputnik.Cluster.Round.{Arrival, reads}
use smartmet_engine_sputnik.Cluster.Round.Reading.{
  IsHarmless, read-Keeps, reads-Keeps, reads-append,
}

module _ (P : Platform) (serialize : BroadcastMessage P.Float → Str)
    (parse : Str → BroadcastMessage P.Float) where
  -- A service that a backend announces under a URI.
  abbrev pub offer : BackendState P.Float → ℤ → Str → Bool → BackendService P.Float
  offer b n path prefix = record {
    backend = record {
      name = b.hostname;
      ip = b.http_address;
      port = pos b.http_port;
      comment = b.comment;
      load = b.current_load;
      throttle = b.throttle_limit;
    };
    uri = path;
    last_update = pos 0;
    allow_cache = false;
    sequence_number = n;
    defines_prefix = prefix;
  }

  announced-offer :
      (b : BackendState P.Float) (reply : BroadcastMessage P.Float) (host : HostInfo P.Float)
      (n : ℤ) (throttle : ℕ) (path uri : Str) (prefix : Bool) (uris : List (Str × Bool))
      → service_of (server_of reply host throttle) reply.seqnum (reply_service (path, prefix))
        ≡ offer b n path prefix
      → (uri ≡ path) ⊎ (uri ≡ direct_uri reply.name path)
      → Memᴰ (path, prefix) uris
      → Memᴰ
          (offer b n path prefix)
          (announced reply (server_of reply host throttle) uri (map reply_service uris))
  unfolding announced reply_service str_eq server_of service_of direct_uri
  announced-offer b reply host n throttle path uri prefix [] e u i = elim i [ ]
  announced-offer b reply host n throttle path uri prefix (x ∷ uris) e u (Memᴰ.tail i) =
      Mem-append_right _ _ (announced-offer b reply host n throttle path uri prefix uris e u i)
  announced-offer b reply host n throttle path uri prefix (x ∷ uris) e u (Memᴰ.head q) =
      Mem-append_left _ _ (
        subst
          (λ (y : Str × Bool). Memᴰ (offer b n path prefix) (
            (if str_eq y.0 uri
              then service_of (server_of reply host throttle) reply.seqnum (reply_service y) ∷ []
              else [])
            ++ (if str_eq (direct_uri reply.name y.0) uri
                then service_of (server_of reply host throttle) reply.seqnum (reply_service y) ∷ []
                else [])))
          q
          (elim u [
            | inl p ↦
                Mem-append_left _ _
                  (Mem-if _ _ ((str_eq_iff path uri).1 (sym p)) (Memᴰ.head (sym e)))
            | inr p ↦ Mem-append_right _ _ (
                Mem-if _ _ ((str_eq_iff (direct_uri reply.name path) uri).1 (sym p))
                  (Memᴰ.head (sym e)))
          ]))

  -- At the end of a round, what is of this round stays.
  pub finished-Mem :
      (r : Reactor) (s : Frontend P) (key : Str) (b : BackendService P.Float)
      → b.sequence_number ≡ pos s.frontend_sequence
      → Memᴰ b (provided P s.services key)
      → Memᴰ b (provided P (finished P r s).services key)
  finished-Mem r s key b e i =
      let clean : Memᴰ b
          (provided P (latest_sequence P r (pos s.frontend_sequence) s.services) key) =
        subst (Memᴰ b) (sym (provided-latest_sequence P r (pos s.frontend_sequence) s.services key))
          (Mem-keep (is_latest (pos s.frontend_sequence)) (provided P s.services key)
            ((int_eq_iff b.sequence_number (pos s.frontend_sequence)).1 e) i) in
      elim (Bool-cases (ltb 0 s.received_responses)) [
        | inl e ↦ rw e clean
        | inr e ↦ elim (Bool-cases (ltb s.skipped_cycles s.max_skipped_cycles)) [
          | inl l ↦ rw (e, l) i
          | inr g ↦ rw (e, g) clean
        ]
      ]

  module _ (b : BackendState P.Float) (n : ℕ) (path uri : Str) (prefix : Bool)
      (served : Memᴰ (path, prefix) b.uri_map)
      (under : (uri ≡ path) ⊎ (uri ≡ direct_uri b.hostname path)) where
    abbrev reply : BroadcastMessage P.Float
    reply = discovery_reply b (pos n) (pos b.http_port) (pos b.throttle_limit)

    process_reply-offer :
        (r : Reactor) (now : ℕ) (message : BroadcastMessage P.Float) (received : ℕ) (s : Services P)
        → message ≡ reply
        → (s' : Services P) × (process_reply P false r now message (s, received)
            ≡ ok (s', (received + 1) % 2 ^ 32))
          × Memᴰ (offer b (pos n) path prefix) (provided P s' uri)
    unfolding discovery_reply service_of server_of reply_service
    process_reply-offer r now message received s e =
        let host = host_of b in
        let (s', run, lists) =
          process_reply-provided P r now reply host b.throttle_limit received s
            (refl, refl, is_empty-map_Mem _ b.uri_map served) refl in
        (
          s',
          rw e run,
          subst (Memᴰ (offer b (pos n) path prefix)) (sym (lists uri)) (
              Mem-append_right (provided P s uri) _ (
                announced-offer b reply host (pos n) b.throttle_limit path uri prefix b.uri_map refl
                  under served)),
        )

    -- Among other datagrams, the frontend reads the backend's reply.
    pub reads-offer :
        (before after : List Arrival) (a : Arrival) (s : Frontend P)
        → IsSound P s
        → All (λ x. IsHarmless P serialize parse (parse x.bytes)) before
        → All (λ x. IsHarmless P serialize parse (parse x.bytes)) after
        → parse a.bytes ≡ reply
        → (s' : Frontend P) × (reads P serialize parse (before ++ a ∷ after) s ≡ ok s')
          × IsSound P s'
          × (s'.frontend_sequence ≡ s.frontend_sequence)
          × Memᴰ (offer b (pos n) path prefix) (provided P s'.services uri)
    unfolding reads handle_frontend_read
    reads-offer before after a s v h h' e =
        let (s2, run2, k2) = reads-Keeps P serialize parse before s v h in
        let (services, run3, i) =
          process_reply-offer a.reactor a.now (parse a.bytes) s2.received_responses s2.services e in
        let k3 = read-Keeps P serialize parse a s2 services _ k2.sound run3 in
        let (s4, run4, k4) = reads-Keeps P serialize parse after _ k3.sound h' in
        (
          s4,
          reads-append P serialize parse before (a ∷ after) s ∙ rw (run2, reads) (rw run3 run4),
          k4.sound,
          k4.same_round ∙ k2.same_round,
          k4.lists uri _ i,
        )
