-- ===== src/Cluster/Safety.antt =====
-- Whatever happens in the cluster, a frontend lists what backends offer.
use smartmet_engine_sputnik.Services.Answers.{get_service-Answers}
use mathlib.Core.List.{Memᴰ}
use mathlib.Core.Path.{subst}
use smartmet_engine_sputnik.Messages.Keeping.{IsAnnounced}
use smartmet_engine_sputnik.Prelude.{
  Mem-append_right, All-imply, All-Mem, All-append, All-drop, ◌≡◌, ◌∙◌, inl, inr, ◌⊎◌, List, [],
  ◌++◌, none, some, All, Option-cases, pos,
}
use smartmet_engine_sputnik.Text.{Str}
use smartmet_engine_sputnik.OrderedMap.{find}
use smartmet_engine_sputnik.Platform.{Platform, IsRandom}
use smartmet_engine_sputnik.Spine.{Reactor, Request}
use smartmet_engine_sputnik.Outcome.{Returns, ok}
use smartmet_engine_sputnik.PrefixMap.{translate}
use smartmet_engine_sputnik.Backend.{BackendService}
use smartmet_engine_sputnik.Services.{get_service}
use smartmet_engine_sputnik.Services.Listed.{Lists, get_service-IsListed}
use smartmet_engine_sputnik.Messages.{
  BroadcastMessage, BackendState, discovery_reply, service_discovery_request,
}
use smartmet_engine_sputnik.Engine.Cycle.{IsSound}
use smartmet_engine_sputnik.Engine.Reach.{Step-IsSound}
use smartmet_engine_sputnik.Engine.{Answer, success, handle_backend_read}
use smartmet_engine_sputnik.Cluster.{
  Fits, received-of_Fits, Cluster, Event, at_frontend, at_backend, Run, begin, then, sent_by,
  sent_back,
}
use smartmet_engine_sputnik.Cluster.Steps.{Step-Lists}
use smartmet_engine_sputnik.Cluster.Genuine.{
  IsAnswer, IsOffered, IsAnnounced-IsOffered, handle_backend_read-sends,
}

module _ (P : Platform) where
  module _ (serialize : BroadcastMessage P.Float → Str) (parse : Str → BroadcastMessage P.Float)
      (IsBackend : BackendState P.Float → Type 0) where
    -- Every reply is an answer to a request, and every service listed is one that is offered.
    pub record IsGenuine (c : Cluster P) : Type 0 where
      pub sound : IsSound P c.frontend
      pub replies : All (IsAnswer P parse IsBackend c.requests) c.replies
      pub services : Lists P (IsOffered P parse IsBackend c.requests) c.frontend.services

    IsAnswer-more :
        (new old : List Str) (bytes : Str)
        → IsAnswer P parse IsBackend old bytes
        → IsAnswer P parse IsBackend (new ++ old) bytes
    IsAnswer-more new old bytes v = record {
      by = v.by;
      member = v.member;
      asked = v.asked;
      sent = Mem-append_right new old v.sent;
      is_request = v.is_request;
      same = v.same;
    }

    IsOffered-more :
        (new old : List Str) (uri : Str) (b : BackendService P.Float)
        → IsOffered P parse IsBackend old uri b
        → IsOffered P parse IsBackend (new ++ old) uri b
    IsOffered-more new old uri b v = record {
      by = v.by;
      member = v.member;
      asked = v.asked;
      sent = Mem-append_right new old v.sent;
      is_request = v.is_request;
      path = v.path;
      prefix = v.prefix;
      served = v.served;
      under = v.under;
      same = v.same;
    }

    module _ (laws : IsRandom P)
        (parsed : (message : BroadcastMessage P.Float) → parse (serialize message) ≡ message) where
      sent_back-IsAnswer :
          (requests : List Str) (b : BackendState P.Float) (bytes : Str) (a : Answer P)
          → IsBackend b
          → Memᴰ bytes requests
          → ((message : BroadcastMessage P.Float)
              → a.reply ≡ some message
              → ((parse bytes).message_type ≡ service_discovery_request)
                × (message
                    ≡ discovery_reply b
                        (parse bytes).seqnum
                        (pos b.http_port)
                        (pos b.throttle_limit)))
          → All (IsAnswer P parse IsBackend requests) (sent_back P serialize parse a)
      sent_back-IsAnswer requests b bytes a m i h = elim (Option-cases a.reply) [
        | inl e ↦ rw e tt
        | inr (message, e) ↦
            let q = h message e in
            rw e (
              record {
                by = b;
                member = m;
                asked = bytes;
                sent = i;
                is_request = q.0;
                same = parsed message ∙ q.1;
              },
              tt,
            )
      ]

      -- All that has been sent fits the buffers.
      abbrev AllFit : Cluster P → Type 0
      AllFit c = All Fits c.requests × All Fits c.replies

      Event-AllFit : {c d : Cluster P} → Event P serialize parse IsBackend c d → AllFit d → AllFit c
      Event-AllFit {c} (at_frontend step q) fits =
          (All-drop Fits (sent_by P serialize parse step) c.requests fits.0, fits.1)
      Event-AllFit {c} (at_backend b datagram stop stop' shutdown high now p a m i e) fits =
          (fits.0, All-drop Fits (sent_back P serialize parse a) c.replies fits.1)

      Event-IsGenuine :
          {c d : Cluster P}
          → AllFit c
          → IsGenuine c
          → Event P serialize parse IsBackend c d
          → IsGenuine d
      Event-IsGenuine {c} fits v (at_frontend step q) =
          let old = c.requests in
          let new = sent_by P serialize parse step in
          record {
            sound = Step-IsSound P parse laws v.sound step;
            replies = All-imply _ _ (IsAnswer-more new old) c.replies v.replies;
            services = λ key. All-imply _ _ (IsOffered-more new old key) _ (
                Step-Lists P serialize parse (IsOffered P parse IsBackend old) c.replies
                  (λ datagram i b uri announced.
                    IsAnnounced-IsOffered P parse IsBackend old datagram b uri
                      (All-Mem (IsAnswer P parse IsBackend old) c.replies v.replies i)
                      (subst (λ (x : Str). IsAnnounced P (parse x) b uri)
                        (received-of_Fits datagram (All-Mem Fits c.replies fits.1 i)) announced))
                  v.sound step q v.services key);
          }
      Event-IsGenuine {c} fits v (at_backend b datagram stop stop' shutdown high now p a m i e) =
          record {
            sound = v.sound;
            replies =
                All-append (IsAnswer P parse IsBackend c.requests) (sent_back P serialize parse a)
                  c.replies
                  (sent_back-IsAnswer c.requests b datagram a m i (λ message.
                    handle_backend_read-sends P parse IsBackend datagram stop stop' shutdown high
                      now b p
                      (subst
                        (λ (x : Str).
                          handle_backend_read P parse success x stop stop' shutdown high now b p
                          ≡ ok a)
                        (received-of_Fits datagram (All-Mem Fits c.requests fits.0 i)) e)))
                  v.replies;
            services = v.services;
          }

      Run-IsGenuine :
          {c d : Cluster P}
          → AllFit d
          → IsGenuine c
          → Run P serialize parse IsBackend c d
          → IsGenuine d
      Run-IsGenuine fits v begin = v
      Run-IsGenuine fits v (then run event) =
          let before = Event-AllFit event fits in
          Event-IsGenuine before (Run-IsGenuine before v run) event

      -- If protobuf reads what it writes, and random draws are in the documented ranges: in a
      -- cluster in which the frontend began in a sound state with no services listed, and no reply
      -- had been sent, after any sequence of events in which datagrams may be lost, repeated or
      -- late, but none is longer than the buffer of its receiver, `getService` returns nothing or a service that a backend serves. That backend has
      -- named the service, with its own host, port, load and throttle, in the reply to a request,
      -- one of the datagrams sent to the backends; the service carries the number of this request,
      -- and the prefix of the request that is forwarded is the service's URI, or this URI on the
      -- backend's host.
      pub get_service-IsOffered :
          (c d : Cluster P) (r : Reactor) (request : Request)
          → IsSound P c.frontend
          → c.frontend.services.services_by_uri ≡ []
          → c.replies ≡ []
          → Run P serialize parse IsBackend c d
          → All Fits d.requests
          → All Fits d.replies
          → Returns (get_service P r request d.frontend.services) (λ (answer, services).
            (answer ≡ none)
            ⊎ ((b : BackendService P.Float) × (answer ≡ some b)
                × IsOffered P parse IsBackend d.requests
                    (translate d.frontend.services.prefix_map request.resource)
                    b))
      unfolding find
      get_service-IsOffered c d r request v nil none_sent run fits fits' =
          let start : IsGenuine c = record {
            sound = v;
            replies = rw none_sent tt;
            services = λ key. rw nil tt;
          } in
          let w = Run-IsGenuine (fits, fits') start run in
          let ((answer, services), returned, found) =
            get_service-Answers P laws r request d.frontend.services w.sound.valid in
          let listed = get_service-IsListed P r request d.frontend.services returned in
          (
            (answer, services),
            returned,
            elim (Option-cases answer) [
              | inl e ↦ inl e
              | inr (b, e) ↦ inr (b, e, All-Mem _ _ (w.services _) (listed.from_list b e))
            ],
          )
