-- ===== src/Fixtures.antt =====
-- engine/discovery/fixture_discovery.py: `load_fixture`, behind the reading of the file. `equal` is `==` on
-- values: the version is compared by it, so that true and 1.0 pass as 1. The rest is as in Models.
use zero_shadow_autonomous_a.Prelude.{
  String, Bool, Option, List, [], ◌∷◌, ◌==◌, if◌then◌else◌, Result, ok, err, ◌>>=◌, ◌>>◌, require,
  convert, ◌||◌,
}
use zero_shadow_autonomous_a.Prelude.Int.{pos}
use zero_shadow_autonomous_a.Prelude.Json.{Value, str, int, obj, arr, get, items}
use zero_shadow_autonomous_a.Prelude.Text.{strip}
use zero_shadow_autonomous_a.Models.{AssetObservation, AssetError, from_dict}

pub data FixtureError : Type 0 where
  not_an_object bad_schema_version empty_source bad_scope assets_not_list : FixtureError
  -- the TypeError of `scope not in ALLOWED_SCOPES`, for a list or an object
  unhashable : FixtureError
  bad_asset : AssetError → FixtureError

pub record FixtureBatch : Type 0 where
  pub source : String
  pub scope : String
  pub observations : List AssetObservation

-- `ALLOWED_SCOPES`
abbrev pub is_allowed_scope : String → Bool
is_allowed_scope s = s == "synthetic" || s == "owned" || s == "authorized"

abbrev pub scope_of : Value → Result FixtureError String
scope_of (str s) = if is_allowed_scope s then ok s else err bad_scope
scope_of (arr vs) = err unhashable
scope_of (obj fields) = err unhashable
scope_of _ = err bad_scope

abbrev pub source_of : Value → Result FixtureError String
source_of (str s) = if strip s == "" then err empty_source else ok s
source_of _ = err empty_source

abbrev pub assets_of : Value → Result FixtureError (List Value)
assets_of (arr vs) = ok (items vs)
assets_of _ = err assets_not_list

module _ (equal : Value → Value → Bool) (lower : String → String)
    (ip_text : Value → Option String) where
  unfoldable pub observation_loop :
      String → List Value → Result FixtureError (List AssetObservation)
  observation_loop source [] = ok []
  observation_loop source (item ∷ rest) = do
    observation ← convert bad_asset (from_dict lower ip_text (str source) item)
    observations ← observation_loop source rest
    ok (observation ∷ observations)

  unfoldable pub load_fixture : Value → Result FixtureError FixtureBatch
  load_fixture (obj raw) = do
    require (equal (get "schema_version" raw) (int (pos 1))) bad_schema_version
    source ← source_of (get "source" raw)
    scope ← scope_of (get "scope" raw)
    assets ← assets_of (get "assets" raw)
    observations ← observation_loop source assets
    ok (record { source = lower (strip source); scope = scope; observations = observations })
  load_fixture _ = err not_an_object
