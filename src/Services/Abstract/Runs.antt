-- ===== src/Services/Abstract/Runs.antt =====
-- A sequence of calls does to the registry what it does to the three functions, to the URIs and to
-- the prefixes.
use smartmet_engine_sputnik.Services.Answers.{get_service-Answers}
use mathlib.Core.Option.{some-injective}
use mathlib.Core.Path.{subst}
use smartmet_engine_sputnik.Prelude.{
  ◌≡◌, ap, ◌∙◌, inl, inr, List, [], ◌∷◌, Option, some, Option-cases, arith,
}
use smartmet_engine_sputnik.OrderedMap.{find}
use smartmet_engine_sputnik.Services.Abstract.Visits.{get_service-same}
use smartmet_engine_sputnik.Platform.{Platform, IsRandom}
use smartmet_engine_sputnik.Spine.{Reactor, Request}
use smartmet_engine_sputnik.Outcome.{Result-cases, ok}
use smartmet_engine_sputnik.Backend.{BackendService}
use smartmet_engine_sputnik.Services.Validity.{IsValid}
use smartmet_engine_sputnik.Services.Listed.{get_service-IsListed}
use smartmet_engine_sputnik.Services.Requests.{requests_of}
use smartmet_engine_sputnik.Services.{get_service, Services, sentinel_name, set_forwarding}
use smartmet_engine_sputnik.Services.Abstract.{
  Call, added, info_added, cleaned, forwarded, removed, asked, updated, View, replay_call, replay,
  run_call, run,
}
use smartmet_engine_sputnik.Services.Abstract.Refines.{
  Shows, added-Shows, info_added-Shows, cleaned-Shows, removed-Shows, updated-Shows,
  forwarded-Shows,
}

module _ (P : Platform) where
  module _ (laws : IsRandom P) where
    asked-Shows :
        (r : Reactor) (request : Request) (s : Services P)
        {answer : Option (BackendService P.Float)} {s' : Services P} (a : View P)
        → get_service P r request s ≡ ok (answer, s')
        → Shows P s a
        → Shows P s' a
    asked-Shows r request s a e v =
        let ((answer', t), run, w) = get_service-Answers P laws r request s v.valid in
        let l = get_service-IsListed P r request s e in
        let kept = get_service-same P r request s v.valid.uris e in
        record {
          valid = subst (IsValid P) (ground (arith, e, run)) w.0;
          listed = λ key. l.same key ∙ v.listed key;
          info = λ name. ap (λ m. requests_of P (find name m)) l.same_info ∙ v.info name;
          state = λ h p. ap (λ m. find (sentinel_name h p) m) l.same_state ∙ v.state h p;
          uris = kept.0 ∙ v.uris;
          prefixes = kept.1 ∙ v.prefixes;
        }

    call-Shows :
        (c : Call P) (s : Services P) {s' : Services P} (a : View P)
        → run_call P c s ≡ some s'
        → Shows P s a
        → Shows P s' (replay_call P c a)
    call-Shows (added r now b uri load throttle) s a e v =
        subst (λ (u : Services P). Shows P u (replay_call P (added r now b uri load throttle) a))
          (some-injective _ _ e) (added-Shows P r now b uri load throttle s a v)
    call-Shows (info_added q) s a e v =
        subst (λ (u : Services P). Shows P u (replay_call P (info_added q) a))
          (some-injective _ _ e) (info_added-Shows P q s a v)
    call-Shows (cleaned r n) s a e v =
        subst (λ (u : Services P). Shows P u (replay_call P (cleaned r n) a)) (some-injective _ _ e)
          (cleaned-Shows P r n s a v)
    call-Shows (forwarded mode factor cookie) s a e v =
        elim (Result-cases (set_forwarding P mode factor cookie s)) [
          | inl (s1, h) ↦
              subst (λ (u : Services P). Shows P u a) (some-injective _ _ (rw (h, run_call) at e))
                (forwarded-Shows P mode factor cookie s a h v)
          | inr (x, h) ↦
              subst (λ (u : Services P). Shows P u a) (some-injective _ _ (rw (h, run_call) at e)) v
        ]
    call-Shows (removed r host port uri) s a e v = removed-Shows P r host port uri s a e v
    call-Shows (asked r request) s a e v = elim (Result-cases (get_service P r request s)) [
      | inl ((answer, s1), h) ↦
          subst (λ (u : Services P). Shows P u a) (some-injective _ _ (rw (h, run_call) at e))
            (asked-Shows r request s a h v)
      | inr (x, h) ↦ absurd (cc (rw (h, run_call) at e))
    ]
    call-Shows (updated call host port) s a e v =
        subst (λ (u : Services P). Shows P u (replay_call P (updated call host port) a))
          (some-injective _ _ e) (updated-Shows P call host port s a v)

    pub run-replay :
        (calls : List (Call P)) (s : Services P) {s' : Services P} (a : View P)
        → run P calls s ≡ some s'
        → Shows P s a
        → Shows P s' (replay P calls a)
    run-replay [] s a e v = subst (λ (u : Services P). Shows P u a) (some-injective _ _ e) v
    run-replay (c ∷ calls) s a e v = elim (Option-cases (run_call P c s)) [
      | inl n ↦ absurd (cc (rw (n, run) at e))
      | inr (s1, h) ↦
          run-replay calls s1 (replay_call P c a) (rw (h, run) at e) (call-Shows c s a h v)
    ]
