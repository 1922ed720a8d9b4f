-- ===== src/Config/Laws.antt =====
-- When a configuration is loaded.
use kube_extauth_demo.Prelude.{
  String, ◌≡◌, refl, ◌<>◌, ◌==◌, string_eq, eq_iff, ◌↔◌, ◌≢◌, false, none, arith, Bool-cases,
  Option-cases, inl, inr,
}
use kube_extauth_demo.Effect.{Result, ok}
use kube_extauth_demo.Effect.Results.{wrap}
use kube_extauth_demo.Auth.Laws.{bind-eq-ok, wrap-eq-ok}
use kube_extauth_demo.Config.{Config, validate, validated, load}

-- No setting that is required is empty.
abbrev pub IsComplete : Config → Type 0
IsComplete c =
    (c.database.url ≢ "")
    × (c.http.public ≢ "")
    × (c.http.health ≢ "")
    × (c.jwt.private_key_file ≢ "")

present : (s : String) → s == "" ≡ false → s ≢ ""
present s h = λ e. cc (h, (eq_iff s "").1 e)

given : (s : String) → s ≢ "" → s == "" ≡ false
given s h = elim (Bool-cases (s == "")) [
  | inl empty ↦ elim (h ((eq_iff s "").0 empty)) [ ]
  | inr full ↦ full
]

set :
    (c : Config)
    → validate c ≡ none
    → (c.database.url == "" ≡ false)
      × (c.http.public == "" ≡ false)
      × (c.http.health == "" ≡ false)
      × (c.jwt.private_key_file == "" ≡ false)
unfolding validate
set c h = ground arith

complete : (c : Config) → IsComplete c → validate c ≡ none
unfolding validate
complete c h =
    let url = given c.database.url h.0 in
    let public = given c.http.public h.1 in
    let health = given c.http.health h.2 in
    let key = given c.jwt.private_key_file h.3 in rw url (rw public (rw health (rw key refl)))

validated-eq-ok : (c d : Config) → validated (validate c) c ≡ ok d → (c ≡ d) × IsComplete c
validated-eq-ok c d h = elim (Option-cases (validate c)) [
  | inl fine ↦
      let full = set c fine in
      (
        cc (rw fine at h),
        (
          present c.database.url full.0,
          present c.http.public full.1,
          present c.http.health full.2,
          present c.jwt.private_key_file full.3,
        ),
      )
  | inr (e, bad) ↦ cc (rw bad at h)
]

-- Load returns a configuration exactly when the file can be read and parsed to it and no required
-- setting in it is empty.
pub load_iff :
    (read_file : String → Result String) (unmarshal : String → Result Config)
    (quote : String → String) (path : String) (c : Config)
    → (load read_file unmarshal quote path ≡ ok c)
      ↔ ((raw : String) × (read_file path ≡ ok raw) × (unmarshal raw ≡ ok c) × IsComplete c)
unfolding load
load_iff read_file unmarshal quote path c = (
  λ h.
      let (raw, read, rest) =
        bind-eq-ok (wrap ("read config " <> quote path) (read_file path)) _ h in
      let (d, parsed, valid) =
        bind-eq-ok (wrap ("parse config " <> quote path) (unmarshal raw)) _ rest in
      let (same, all_set) = validated-eq-ok d c valid in
      (raw, wrap-eq-ok _ _ read, rw (← same) (wrap-eq-ok _ _ parsed), rw (← same) all_set),
  λ (raw, read, parsed, all_set). rw read (rw parsed (rw (complete c all_set) refl)),
)
