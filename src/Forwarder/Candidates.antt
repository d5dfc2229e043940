-- ===== src/Forwarder/Candidates.antt =====
-- The choice of `DoubleRandomForwarder` between two candidates.
use smartmet_engine_sputnik.Prelude.{
  ℕ, ◌-◌, ◌<◌, ◌≡◌, refl, ap, false, List, none, some, length, get_elem?, get_elem?-lt, Bool-cases,
  inl, inr, ◌⊎◌, ℤ, pos, int_lt, arith,
}
use smartmet_engine_sputnik.Platform.{Platform, IsRandom}
use smartmet_engine_sputnik.Spine.{Reactor}
use smartmet_engine_sputnik.Outcome.{Returns}
use smartmet_engine_sputnik.Backend.{BackendInfo}
use smartmet_engine_sputnik.Sticky.{connections_of}
use smartmet_engine_sputnik.Forwarder.{Forwarder, double_random_backend, fewer_connections}

module _ (P : Platform) where
  -- The connection count of the backend at an index.
  abbrev pub count_at : Reactor → List (BackendInfo P.Float) → ℕ → ℤ
  count_at r infos i = elim (get_elem? infos i) [ none ↦ pos 0 | some info ↦ connections_of r info ]

  count_at-some :
      (r : Reactor) (infos : List (BackendInfo P.Float)) (i : ℕ) {x : BackendInfo P.Float}
      → get_elem? infos i ≡ some x
      → count_at r infos i ≡ connections_of r x
  count_at-some r infos i {x} e =
      ap (λ o. elim o [ none ↦ pos 0 | some info ↦ connections_of r info ]) e

  -- `k` is one of the candidates `i` and `j`, and neither has fewer connections than it.
  pub record IsLighter (r : Reactor) (infos : List (BackendInfo P.Float)) (i j k : ℕ) : Type 0 where
    pub chosen : (k ≡ i) ⊎ (k ≡ j)
    pub first : int_lt (count_at r infos i) (count_at r infos k) ≡ false
    pub second : int_lt (count_at r infos j) (count_at r infos k) ≡ false

  pub fewer_connections-IsLighter :
      (r : Reactor) (infos : List (BackendInfo P.Float)) (i j : ℕ)
      → i < length infos
      → j < length infos
      → (k : ℕ) × (fewer_connections P r infos i j ≡ some k) × IsLighter r infos i j k
  unfolding fewer_connections
  fewer_connections-IsLighter r infos i j h h' =
      let (x, e) = get_elem?-lt infos i h in
      let (y, e') = get_elem?-lt infos j h' in
      let c = count_at-some r infos i e in
      let c' = count_at-some r infos j e' in
      elim (Bool-cases (int_lt (connections_of r y) (connections_of r x))) [
        | inl less ↦ (
          j,
          ground (arith, e, e', less),
          record { chosen = inr refl; first = ground (arith, c, c', less); second = ground arith },
        )
        | inr more ↦ (
          i,
          ground (arith, e, e', more),
          record { chosen = inl refl; first = ground arith; second = ground (arith, c, c', more) },
        )
      ]

  -- If random draws are in the documented ranges, and the list is not empty,
  -- `DoubleRandomForwarder` returns the index of one of the two backends that it has drawn, and
  -- neither of the two has fewer connections than that one.
  pub double_random_backend-IsLighter :
      IsRandom P
      → (r : Reactor) (f : Forwarder P) → 0 < length f.infos
      → Returns (double_random_backend P r f) (λ (k, f').
        let draw = P.uniform (length f.infos - 1) f.generator in
        IsLighter r f.infos draw.0 (P.uniform (length f.infos - 1) draw.1).0 k)
  unfolding double_random_backend
  double_random_backend-IsLighter laws r f n =
      let top = length f.infos - 1 in
      let draw1 = P.uniform top f.generator in
      let draw2 = P.uniform top draw1.1 in
      let low : draw1.0 < length f.infos = omega (arith, laws.uniform_range top f.generator) in
      let low' : draw2.0 < length f.infos = omega (arith, laws.uniform_range top draw1.1) in
      let (k, e, lighter) = fewer_connections-IsLighter r f.infos draw1.0 draw2.0 low low' in
      ((k, record f { generator = draw2.1 }), ground (arith, e), lighter)
