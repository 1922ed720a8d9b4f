-- ===== src/Api/Spec.antt =====
-- The embedded specification of sample-api/pkg/openapi/gen.go: how it is decoded and loaded. Its text
-- is a parameter, as are the decoders and the loader of github.com/getkin/kin-openapi.
pub mod Laws
use kube_extauth_demo.Prelude.{
  String, ◌<>◌, len, ltb, ◌==◌, string_eq, ◌&&◌, Option, none, some, List, [], ◌∷◌, if◌then◌else◌,
}
use kube_extauth_demo.Effect.{Err, other, Result, ok, err}
use kube_extauth_demo.Effect.Results.{wrap, ◌>>=◌}

-- `close` is the method Close of the reader after the data has been read from it. The loader is given
-- ReadFromURIFunc, of the text of a URL.
pub record SpecLibrary : Type 1 where
  pub Document : Type 0
  pub decode_base64 : String → Result String
  pub inflate : String → Result String
  pub close : String → Result (Unit {0})
  pub clean : String → String
  pub load_from_data : (String → Result String) → String → Result Document

-- strings.Join(…, "")
unfoldable pub join : List String → String
join [] = ""
join (chunk ∷ chunks) = chunk <> join chunks

-- A map from paths to functions that return the text of a specification.
abbrev pub RawSpecs : Type 0
RawSpecs = String → Option (Result String)

module _ (lib : SpecLibrary) (swagger_spec : List String) where
  open lib use {Document, decode_base64, inflate, close, clean, load_from_data}

  unfoldable pub decode_spec : Result String
  unfolding join
  decode_spec = do
    compressed ← wrap "error base64 decoding spec" (decode_base64 (join swagger_spec))
    json ← wrap "read flate" (inflate compressed)
    _ ← wrap "close flate reader" (close compressed)
    ok json

  -- The value and the error of decode_spec, which every call of the cache returns.
  abbrev pub raw_spec : Result String
  raw_spec = decode_spec

  unfoldable pub path_to_raw_spec : String → RawSpecs
  path_to_raw_spec path_to_file key =
      if ltb 0 (len path_to_file) && key == path_to_file then some raw_spec else none

  -- loader.ReadFromURIFunc
  unfoldable pub read_from_uri : RawSpecs → String → Result String
  read_from_uri resolve_path url = elim (resolve_path (clean url)) [
    | none ↦ err (other ("path not found: " <> clean url))
    | some raw ↦ raw
  ]

  unfoldable pub get_spec : Result Document
  unfolding path_to_raw_spec read_from_uri
  get_spec = do spec_data ← raw_spec; load_from_data (read_from_uri (path_to_raw_spec "")) spec_data

  unfoldable pub get_spec_json : Result String
  get_spec_json = raw_spec

  unfoldable pub get_swagger : Result Document
  unfolding get_spec
  get_swagger = get_spec
