-- ===== src/Telemetry/Resource.antt =====
-- platform/telemetry/resource.go: the attributes that every span, metric and log carries.
--
-- resource.New is the parameter `merge`, over what its detectors find, in their order; the schema
-- URL is left out. `debug.ReadBuildInfo` is the list of the build's settings, if there is one.
use delivery_backend.Base.{
  String, ◌≡◌, refl, false, not, ◌&&◌, Option, none, some, List, [], ◌∷◌, ◌==◌, if◌then◌else◌,
  Bool-cases, inl, inr,
}
use delivery_backend.Errors.{wrapped, first_some, Result, success, failure}
use delivery_backend.Kafka.Message.{lookup}

abbrev pub unknown_version : String
unknown_version = "unknown"

abbrev pub vcs_revision : String
vcs_revision = "vcs.revision"

-- The loop of serviceVersion over the settings.
unfoldable pub revision_of : List (String × String) → String
revision_of [] = unknown_version
revision_of ((key, value) ∷ rest) =
    if key == vcs_revision && not (value == "") then value else revision_of rest

unfoldable pub service_version : Option (List (String × String)) → String
service_version none = unknown_version
service_version (some settings) = revision_of settings

abbrev pub Attributes : Type 0
Attributes = List (String × String)

abbrev pub service_name_key : String
service_name_key = "service.name"

abbrev pub service_version_key : String
service_version_key = "service.version"

-- What is set in the code.
abbrev pub own_attributes : String → String → Attributes
own_attributes name version = (service_name_key, name) ∷ (service_version_key, version) ∷ []

-- newResource: what WithService and WithFromEnv find comes first.
module _ (merge : List Attributes → Result Attributes) where
  abbrev pub named : Result Attributes → Result Attributes
  named (success res) = success res
  named (failure err) = failure (wrapped "telemetry: resource: " err "")

  unfoldable pub new_resource :
      (service from_env : Attributes) → Option (List (String × String)) → String → Result Attributes
  new_resource service from_env info name =
      named (merge (service ∷ from_env ∷ own_attributes name (service_version info) ∷ []))

-- The value of a key in the last of the lists that has it.
abbrev pub latest : String → List Attributes → Option String
latest k [] = none
latest k (d ∷ ds) = first_some (latest k ds) (lookup k d)

-- resource.New keeps, of several values of a key, the one that is found last.
pub record IsMerge (merge : List Attributes → Result Attributes) : Type 0 where
  pub keeps :
      (ds : List Attributes) (res : Attributes)
      → merge ds ≡ success res
      → (k : String) → lookup k res ≡ latest k ds

revision_of-ne : (settings : List (String × String)) → (revision_of settings == "") ≡ false
unfolding revision_of
revision_of-ne [] = refl
revision_of-ne ((key, value) ∷ rest) = elim (Bool-cases (key == vcs_revision)) [
  | inl same ↦ elim (Bool-cases (value == "")) [
    | inl empty ↦ rw (same, empty) (revision_of-ne rest)
    | inr full ↦ rw (same, full) full
  ]
  | inr other ↦ rw other (revision_of-ne rest)
]

service_version-ne : (info : Option (List (String × String))) → (service_version info == "") ≡ false
unfolding service_version
service_version-ne none = refl
service_version-ne (some settings) = revision_of-ne settings

named-success :
    (merge : List Attributes → Result Attributes) (r : Result Attributes) (res : Attributes)
    → named merge r ≡ success res
    → r ≡ success res
named-success merge (success a) res h = h
named-success merge (failure err) res h = absurd (cc h)

module _ (merge : List Attributes → Result Attributes) (m : IsMerge merge) where
  -- Whatever the environment sets, a resource that is made has the service's name as it was given,
  -- and a version that is not empty. Of several values of a key, resource.New is assumed to keep
  -- the one that is found last.
  pub new_resource-success :
      (service from_env : Attributes) (info : Option (List (String × String))) (name : String)
      (res : Attributes)
      → new_resource merge service from_env info name ≡ success res
      → (lookup service_name_key res ≡ some name)
        × ((version : String) × (lookup service_version_key res ≡ some version)
            × ((version == "") ≡ false))
  unfolding new_resource
  new_resource-success service from_env info name res h =
      let found = m.keeps _ res (named-success merge _ res h) in
      (
        found service_name_key,
        (service_version info, found service_version_key, service_version-ne info),
      )
