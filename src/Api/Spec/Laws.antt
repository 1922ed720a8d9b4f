-- ===== src/Api/Spec/Laws.antt =====
-- GetSpec of sample-api/pkg/openapi/gen.go.
use kube_extauth_demo.Prelude.{◌≡◌, refl, sym, ◌∙◌, String, ◌<>◌, List, ◌↔◌}
use kube_extauth_demo.Effect.{other, Result, ok, err}
use kube_extauth_demo.Effect.Results.{wrap, ◌>>=◌}
use kube_extauth_demo.Api.Spec.{
  SpecLibrary, join, decode_spec, path_to_raw_spec, read_from_uri, get_spec,
}

then-eq-ok {ℓ κ} :
    {A : Type ℓ} {B : Type κ} (r : Result A) (k : A → Result B) {b : B}
    → (r >>= k) ≡ ok b
    → (a : A) × (r ≡ ok a) × (k a ≡ ok b)
then-eq-ok (ok a) k h = (a, refl, h)
then-eq-ok (err e) k h = cc

wrap-eq-ok {ℓ} : {A : Type ℓ} (text : String) (r : Result A) {a : A} → wrap text r ≡ ok a → r ≡ ok a
wrap-eq-ok text (ok b) h = h
wrap-eq-ok text (err e) h = cc

module _ (lib : SpecLibrary) (swagger_spec : List String) where
  -- A loader that finds no file at any URL.
  abbrev no_file : String → Result String
  no_file url = err (other ("path not found: " <> lib.clean url))

  -- No URL leads to another text: the map of paths is empty.
  read_from_uri-no_file :
      (url : String)
      → read_from_uri lib swagger_spec (path_to_raw_spec lib swagger_spec "") url ≡ no_file url
  unfolding read_from_uri path_to_raw_spec
  read_from_uri-no_file url = refl

  no_other_file :
      (json : String)
      → lib.load_from_data
          (read_from_uri lib swagger_spec (path_to_raw_spec lib swagger_spec ""))
          json
        ≡ lib.load_from_data no_file json
  no_other_file json = λ i. lib.load_from_data (λ url. read_from_uri-no_file url i) json

  -- GetSpec returns a document exactly when the embedded text is valid base64 of deflated data whose
  -- reader closes without error, and is then what the loader makes of that data without reading
  -- any other file.
  get_spec_iff :
      (document : lib.Document)
      → (get_spec lib swagger_spec ≡ ok document) ↔ (
          (compressed : String) × (json : String) × (lib.decode_base64 (join swagger_spec)
            ≡ ok compressed)
          × (lib.inflate compressed ≡ ok json)
          × (lib.close compressed ≡ ok tt)
          × (lib.load_from_data no_file json ≡ ok document))
  unfolding get_spec decode_spec
  get_spec_iff document = (
    λ h.
        let (json, decoded, loaded) = then-eq-ok (decode_spec lib swagger_spec) _ h in
        let (compressed, based, rest) = then-eq-ok _ _ decoded in
        let (text, inflated, end) = then-eq-ok _ _ rest in
        let (_, closed, same) = then-eq-ok _ _ end in
        (
          compressed,
          json,
          wrap-eq-ok _ _ based,
          wrap-eq-ok _ _ inflated ∙ same,
          wrap-eq-ok _ _ closed,
          sym (no_other_file json) ∙ loaded,
        ),
    λ (compressed, json, based, inflated, closed, loaded).
        rw (based, inflated, closed, decode_spec) (no_other_file json ∙ loaded),
  )
