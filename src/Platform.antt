-- ===== src/Platform.antt =====
-- What the engine takes from outside the repository: the floating-point arithmetic of the C++
-- implementation, the generators and distributions of Boost.Random, and how addresses and ports
-- are parsed.
use smartmet_engine_sputnik.Text.{Str}
use smartmet_engine_sputnik.Prelude.{Option, ℕ, ◌≤◌, ◌<◌, Bool, List, length, ℤ}

-- `Float` holds the values of `float` and of `double`, a `float` being a `double` as well.
pub record Platform : Type 1 where
  pub Float : Type 0
  pub zero_f : Float
  pub one_f : Float
  pub two_f : Float
  pub of_int : ℤ → Float
  pub add : Float → Float → Float
  pub mul : Float → Float → Float
  pub div : Float → Float → Float
  pub neg : Float → Float
  pub lt : Float → Float → Bool
  -- the product of two doubles, and `static_cast<int>` of a double
  pub mul_double : Float → Float → Float
  pub to_int : Float → ℤ
  -- `std::exp`
  pub exp : Float → Float
  -- `boost::taus88`, seeded
  pub Generator : Type 0
  pub seeded : ℕ → Generator
  -- a draw from `discrete_distribution` with these weights
  pub discrete : List Float → Generator → ℕ × Generator
  -- a draw from `uniform_int_distribution{0, n}`
  pub uniform : ℕ → Generator → ℕ × Generator
  -- whether `boost::asio::ip::make_address_v4` takes a text, and `Fmi::stoi` of a text
  pub is_address : Str → Bool
  pub stoi : Str → Option ℤ

-- What Boost.Random documents: a draw of `uniform_int_distribution{0, n}` is at most `n`. A
-- `discrete_distribution` of no weights always gives 0, one of `n` weights gives an index below
-- `n`.
pub record IsRandom (P : Platform) : Type 0 where
  pub uniform_range : (n : ℕ) (g : P.Generator) → (P.uniform n g).0 ≤ n
  pub discrete_range :
      (ws : List P.Float) (g : P.Generator) → 0 < length ws → (P.discrete ws g).0 < length ws
