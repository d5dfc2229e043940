-- ===== src/Tests/Forwarding.antt =====
-- The choice of a backend.
use smartmet_engine_sputnik.Prelude.{
  length, ◌-◌, ℕ, ◌≡◌, refl, ◌⊎◌, List, [], ◌∷◌, Option, some, pos, arith,
}
use smartmet_engine_sputnik.Text.{codes, to_string}
use smartmet_engine_sputnik.Outcome.{Returns}
use smartmet_engine_sputnik.Backend.{BackendInfo}
use smartmet_engine_sputnik.Forwarder.Candidates.{IsLighter, double_random_backend-IsLighter}
use smartmet_engine_sputnik.Forwarder.{double_random_backend, Forwarder, double_random, get_backend}
use smartmet_engine_sputnik.Forwarder.Range.{InRange, get_backend-InRange}
use smartmet_engine_sputnik.Sticky.{
  threshold_of, factor_of, min_connections, int_max, fnv1a, fnv_offset, extract_key, sticky_backend,
  select_loop, score_of,
}
use smartmet_engine_sputnik.Sticky.Winner.{IsWinner, sticky_backend-IsWinner}
use smartmet_engine_sputnik.Sticky.Stability.{selected, selected-remove}
use smartmet_engine_sputnik.Services.Alignment.{Aligned, sweep_entry-Aligned}
use smartmet_engine_sputnik.Services.{Entry, sweep_entry, is_latest}
use smartmet_engine_sputnik.Tests.Data.{
  plain, plain-IsRandom, calm, request, server_a, server_b, wms_on, info_on,
}

abbrev infos : List (BackendInfo ℕ)
infos = info_on server_a ∷ info_on server_b ∷ []

abbrev pair : Forwarder plain
pair = record {
  mode = double_random;
  coefficient = 2;
  cookie_name = [];
  infos = infos;
  distribution = [];
  generator = 3;
}

get_backend-InRange_example : Returns (get_backend plain calm request pair) (InRange plain pair)
get_backend-InRange_example =
    get_backend-InRange plain plain-IsRandom calm request pair (λ h. cc) (omega arith)

double_random_backend-IsLighter_example :
    Returns (double_random_backend plain calm pair) (λ (k, f').
      let draw = plain.uniform (length infos - 1) 3 in
      IsLighter plain calm infos draw.0 (plain.uniform (length infos - 1) draw.1).0 k)
double_random_backend-IsLighter_example =
    double_random_backend-IsLighter plain plain-IsRandom calm pair (omega arith)

sticky_backend-IsWinner_example :
    (info : BackendInfo ℕ) × IsWinner calm
      (threshold_of plain 2 (min_connections calm int_max infos))
      (fnv1a (extract_key (codes "id") request) fnv_offset)
      infos
      (sticky_backend plain 2 (codes "id") calm request infos)
      info
unfolding factor_of
sticky_backend-IsWinner_example =
    sticky_backend-IsWinner plain 2 (codes "id") calm request infos 1 (omega arith) (omega arith)
      (omega arith) (λ m h. (omega arith, omega arith))

abbrev winner : Option (BackendInfo ℕ)
winner = selected calm (pos 6) 99 infos

selected_runs : winner ≡ some (info_on server_a)
unfolding select_loop score_of to_string
selected_runs = refl

selected-remove_example :
    (info_on server_a ≡ info_on server_b)
    ⊎ (selected calm (pos 6) 99 (info_on server_a ∷ []) ≡ some (info_on server_a))
selected-remove_example =
    selected-remove calm (pos 6) 99 (info_on server_a ∷ []) [] (info_on server_b) (info_on server_a)
      selected_runs refl

abbrev entry : Entry plain
entry = record {
  services = wms_on server_a (pos 1) ∷ wms_on server_b (pos 2) ∷ wms_on server_a (pos 2) ∷ [];
  forwarder = record pair { infos = info_on server_a ∷ info_on server_b ∷ info_on server_a ∷ [] };
}

sweep_entry-Aligned_example :
    Aligned
      (sweep_entry plain (is_latest (pos 2)) calm entry).services
      (sweep_entry plain (is_latest (pos 2)) calm entry).forwarder.infos
sweep_entry-Aligned_example =
    sweep_entry-Aligned plain (is_latest (pos 2)) calm entry
      ((refl, refl, (refl, refl, (refl, refl, tt)))) (tt, ((refl, tt), (tt, tt)))
