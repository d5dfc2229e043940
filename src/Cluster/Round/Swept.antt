-- ===== src/Cluster/Round/Swept.antt =====
-- What is listed after a round in which the frontend has heard of some backend.
use mathlib.Core.Path.{subst}
use smartmet_engine_sputnik.Prelude.{
  ℕ, ◌+◌, ◌%◌, ◌^◌, ◌<◌, ◌≡◌, refl, sym, ◌∙◌, inl, inr, true, false, List, [], ◌∷◌, All, count,
  keep, Bool-cases, Option-cases, ltb, pos, int_eq_iff, if◌then◌else◌, arith,
}
use smartmet_engine_sputnik.Text.{Str}
use smartmet_engine_sputnik.Platform.{Platform}
use smartmet_engine_sputnik.Spine.{Reactor}
use smartmet_engine_sputnik.OrderedMap.{find}
use smartmet_engine_sputnik.OrderedMap.Laws.{AllValues-find}
use smartmet_engine_sputnik.Outcome.{Result, ok, Returns, bind-ok, ◌>>=◌}
use smartmet_engine_sputnik.Backend.{BackendService}
use smartmet_engine_sputnik.Services.{Services, is_latest, add_backend_info_request}
use smartmet_engine_sputnik.Services.Ages.{age, Aged}
use smartmet_engine_sputnik.Services.Punctual.{IsPunctual, ArePunctual}
use smartmet_engine_sputnik.Services.Provided.{provided, provided-latest_sequence}
use smartmet_engine_sputnik.Services.Listed.{Lists, add_service-Lists}
use smartmet_engine_sputnik.Messages.{BroadcastMessage}
use smartmet_engine_sputnik.Messages.Keeping.{IsAnnounced, IsKept, Leaves, keep-process_reply}
use smartmet_engine_sputnik.Engine.Cycle.{
  IsSound, finished, next, finished-IsSound, next-IsSound, handle_deadline_timer-next,
}
use smartmet_engine_sputnik.Engine.Punctual.{IsOrderly, finished-lists, finished-short}
use smartmet_engine_sputnik.Engine.{
  Sending, Frontend, success, handle_frontend_read, handle_deadline_timer,
}
use smartmet_engine_sputnik.Cluster.Round.{Arrival, reads}
use smartmet_engine_sputnik.Cluster.Round.Reading.{
  is_response, IsHarmless, process_reply-returns, read-Keeps,
}

module _ (P : Platform) (serialize : BroadcastMessage P.Float → Str)
    (parse : Str → BroadcastMessage P.Float) where
  -- A round in which the frontend reads the datagrams, from the deadline that starts it to the one
  -- that ends it.
  abbrev pub hearing_round :
      Sending → Reactor → Reactor → List Arrival → Frontend P → Result (Frontend P)
  hearing_round sending r r' arrivals s =
      handle_deadline_timer P success r false sending s >>= λ (s1, sent).
      reads P serialize parse arrivals s1 >>= λ s2.
      handle_deadline_timer P success r' false sending s2 >>= λ (s3, sent'). ok s3

  -- How many of the datagrams count as responses.
  abbrev pub responses : List Arrival → ℕ
  responses arrivals = count (λ a. is_response P serialize parse (parse a.bytes)) arrivals

  module _ (D : BackendService P.Float → Type 0) where
    -- What is listed of the round `n` has the property.
    abbrev Spared : ℕ → Str → BackendService P.Float → Type 0
    Spared n key b = (b.sequence_number ≡ pos n) → D b

    -- What the datagram announces for the round `n` has it.
    abbrev pub Brings : ℕ → Arrival → Type 0
    Brings n a =
        (b : BackendService P.Float) (uri : Str)
        → IsAnnounced P (parse a.bytes) b uri
        → b.sequence_number ≡ pos n
        → D b

    Aged-Spared :
        (n bound : ℕ) (key : Str) (ss : List (BackendService P.Float))
        → n < 65535
        → bound < 65534
        → Aged n bound ss
        → All (Spared ((n + 1) % 65535) key) ss
    Aged-Spared n bound key [] r h a = tt
    Aged-Spared n bound key (s ∷ ss) r h (m, e, l, k, a) = (
      λ q. absurd (let same : m ≡ (n + 1) % 65535 = ground (arith, e, q) in omega arith),
      Aged-Spared n (age n m) key ss r (omega arith) a,
    )

    ArePunctual-Spared :
        (n bound : ℕ) (s : Services P)
        → n < 65535
        → bound < 65534
        → ArePunctual P n bound s
        → Lists P (Spared ((n + 1) % 65535)) s
    ArePunctual-Spared n bound s r h a key = elim (Option-cases (find key s.services_by_uri)) [
      | inl e ↦ rw e tt
      | inr (entry, e) ↦ rw e (
          Aged-Spared n bound key entry.services r h
            (AllValues-find (IsPunctual P n bound) key s.services_by_uri a e).aged)
    ]

    Spared-IsKept :
        (n : ℕ) (a : Arrival)
        → Brings n a
        → IsKept P (Lists P (Spared n)) a.reactor a.now (parse a.bytes)
    Spared-IsKept n a brings = record {
      by_service = λ b uri load throttle s known l.
          add_service-Lists P (Spared n) a.reactor a.now b uri load throttle s (brings b uri known)
            l;
      by_request = λ q s l. unfold add_backend_info_request in l;
    }

    -- After such datagrams the property still holds, and the responses have been counted.
    reads-Spared :
        (n : ℕ) (arrivals : List Arrival) (s : Frontend P)
        → IsSound P s
        → All (λ a. IsHarmless P serialize parse (parse a.bytes)) arrivals
        → All (Brings n) arrivals
        → s.received_responses + responses arrivals < 2 ^ 32
        → Lists P (Spared n) s.services
        → (s' : Frontend P) × (reads P serialize parse arrivals s ≡ ok s')
          × IsSound P s'
          × (s'.frontend_sequence ≡ s.frontend_sequence)
          × (s'.received_responses ≡ s.received_responses + responses arrivals)
          × Lists P (Spared n) s'.services
    unfolding reads handle_frontend_read
    reads-Spared n [] s v h other short a = (s, refl, v, refl, omega arith, a)
    reads-Spared n (x ∷ later) s v h other short a =
        let (services, run) =
          process_reply-returns P serialize parse x.reactor x.now (parse x.bytes)
            s.received_responses s.services h.0 in
        let w = read-Keeps P serialize parse x s services _ v run in
        let total : (if is_response P serialize parse (parse x.bytes)
                then (s.received_responses + 1) % 2 ^ 32
                else s.received_responses)
              + responses later
            ≡ s.received_responses + responses (x ∷ later) =
          ground (arith, short) in
        let a' = subst (Leaves P (Lists P (Spared n))) run (
          keep-process_reply P (Lists P (Spared n)) x.reactor x.now (parse x.bytes)
            (Spared-IsKept n x other.0) false s.received_responses s.services a) in
        let (s', run', v', same_round, counted, a'') =
          reads-Spared n later _ w.sound h.1 other.1 (omega (arith, total, short)) a' in
        (s', rw run run', v', same_round, omega (arith, counted, total), a'')

    latest-Spared :
        (n : ℕ) (key : Str) (ss : List (BackendService P.Float))
        → All (Spared n key) ss
        → All (D) (keep (is_latest (pos n)) ss)
    latest-Spared n key [] a = tt
    latest-Spared n key (s ∷ ss) a = elim (Bool-cases (is_latest (pos n) s)) [
      | inl y ↦ rw y (a.0 ((int_eq_iff s.sequence_number (pos n)).0 y), latest-Spared n key ss a.1)
      | inr y ↦ rw y (latest-Spared n key ss a.1)
    ]

    finished-Spared :
        (r : Reactor) (s : Frontend P)
        → 0 < s.received_responses
        → Lists P (Spared s.frontend_sequence) s.services
        → Lists P (λ key. D) (finished P r s).services
    finished-Spared r s h a key =
        let t : ltb 0 s.received_responses ≡ true = ground arith in
        rw t (
          subst (All D)
            (sym (provided-latest_sequence P r (pos s.frontend_sequence) s.services key))
            (latest-Spared s.frontend_sequence key (provided P s.services key) (a key)))

    finished-received : (r : Reactor) (s : Frontend P) → (finished P r s).received_responses ≡ 0
    finished-received r s = ground arith

    -- At the end of a round with a response, every service that is listed has the property.
    pub hearing_round-Swept :
        (sending : Sending) (r r' : Reactor) (arrivals : List Arrival) (s : Frontend P)
        → IsOrderly P s
        → All (λ a. IsHarmless P serialize parse (parse a.bytes)) arrivals
        → All (Brings ((s.frontend_sequence + 1) % 65535)) arrivals
        → 0 < responses arrivals
        → responses arrivals < 2 ^ 32
        → Returns
            (hearing_round sending r r' arrivals s)
            (λ s'. IsSound P s' × Lists P (λ key. D) s'.services)
    hearing_round-Swept sending r r' arrivals s v h brings some_response few =
        let f = finished P r s in
        let none_yet = finished-received r s in
        let vf = finished-IsSound P r s v.sound in
        let same : f.frontend_sequence ≡ s.frontend_sequence = ground arith in
        let young =
          ArePunctual-Spared f.frontend_sequence f.skipped_cycles f.services vf.sequence_range
            (omega (arith, vf.skipped_range, finished-short P r s, v.short))
            (finished-lists P r s v) in
        let (s2, run, v2, same_round, counted, a) =
          reads-Spared ((f.frontend_sequence + 1) % 65535) arrivals (next P f) (next-IsSound P f vf)
            h (subst (λ n. All (Brings ((n + 1) % 65535)) arrivals) (sym same) brings)
            (omega (arith, none_yet, few)) young in
        let spared =
          finished-Spared r' s2 (omega (arith, none_yet, counted, some_response))
            (subst (λ n. Lists P (Spared n) s2.services) (sym same_round) a) in
        (
          next P (finished P r' s2),
          bind-ok _ (handle_deadline_timer-next P r sending s v.sound)
              ∙ bind-ok _ run
              ∙ bind-ok _ (handle_deadline_timer-next P r' sending s2 v2),
          (next-IsSound P (finished P r' s2) (finished-IsSound P r' s2 v2), spared),
        )
