-- ===== src/Secrets.antt =====
-- secret/service.go: the secrets of resources, decrypted once, and the storage options they give.
pub mod Once
pub mod Samples
use smirror.Prelude.{
  List, [], ◌∷◌, ◌++◌, Bool, true, false, ◌&&◌, ◌||◌, not, Option, none, some, Bytes, Error, errorf,
  wrap, Result, ok, err, is_empty, if◌then◌else◌,
}
use smirror.Text.Search.{codes, same}
use smirror.External.{Urls}
use smirror.Config.Types.{Secret, Credentials, CustomKey, Resource}

-- The key management services, base64 and json, and the options of github.com/viant/afs; a service is
-- a `K`.
pub record Keys (K : Type 0) : Type 0 where
  pub google : K
  pub new_aws : Result K
  pub decrypt : K → Secret → Result Bytes
  -- `base64.StdEncoding.Decode` with the empty rest cut off
  pub decode_base64 : Bytes → Result Bytes
  pub new_aes256_key : Bytes → Result Bytes
  pub valid_json : Bytes → Bool
  pub new_jwt_config : Bytes → Result Bytes
  pub new_auth_config : Bytes → Result Bytes

pub data StorageOption : Type 0 where
  key_option : Bytes → StorageOption
  proxy_option : Bytes → StorageOption
  grant_option : Bytes → StorageOption
  acl_option : Bytes → StorageOption
  encryption_option : Bytes → StorageOption
  jwt_option : Bytes → StorageOption
  auth_option : Bytes → StorageOption
  region_option : Bytes → StorageOption

-- a secret that is asked for and not there yet
abbrev pub lacks_auth : Option Credentials → Bool
lacks_auth none = false
lacks_auth (some c) = elim c.auth [ none ↦ true | some auth ↦ false ]

abbrev pub lacks_key : Option CustomKey → Bool
lacks_key none = false
lacks_key (some k) = elim k.aes256_key [ none ↦ true | some key ↦ false ]

abbrev pub has_auth : Option Credentials → Bool
has_auth none = false
has_auth (some c) = elim c.auth [ none ↦ false | some auth ↦ true ]

abbrev pub has_key : Option CustomKey → Bool
has_key none = false
has_key (some k) = elim k.aes256_key [ none ↦ false | some key ↦ true ]

-- neither credentials nor a key, or one of the two is there
unfoldable pub is_settled : Resource → Bool
is_settled r =
    not (
      lacks_auth r.credentials
      || has_auth r.credentials
      || lacks_key r.custom_key
      || has_key r.custom_key)
    || (has_auth r.credentials || has_key r.custom_key)

abbrev pub next_resource :
    Resource → (Option Error × List (Option Resource)) → Option Error × List (Option Resource)
next_resource r (e, rest) = (e, some r ∷ rest)

-- the loop behind a resource that is not settled
abbrev pub after_load :
    Option Error × Resource
    → List (Option Resource)
    → (Option Error × List (Option Resource))
    → Option Error × List (Option Resource)
after_load (some e, r) rest done = (some e, some r ∷ rest)
after_load (none, r) rest done = next_resource r done

module _ {K : Type 0} (keys : Keys K) (source_scheme : Bytes) where
  unfoldable pub kms : Result K
  kms =
      if same source_scheme (codes "gs")
      then ok keys.google
      else (if same source_scheme (codes "s3")
          then keys.new_aws
          else err (errorf (codes "unsupported scheme: " ++ source_scheme)))

  unfoldable pub decode_base64_if_needed : Bytes → Bytes
  decode_base64_if_needed bytes = elim (keys.decode_base64 bytes) [
    | ok decoded ↦ decoded
    | err e ↦ bytes
  ]

  -- `service.Decrypt`
  unfoldable pub decrypt : Secret → Result Bytes
  decrypt secret = elim kms [
    | err e ↦ err e
    | ok k ↦ elim (keys.decrypt k secret) [
      | err e ↦ err e
      | ok bytes ↦ ok (decode_base64_if_needed bytes)
    ]
  ]

  -- the service of the earlier resources, or a new one
  abbrev pub opened : Option K → Result K
  opened none = kms
  opened (some k) = ok k

  unfoldable pub load_auth : K → Option Credentials → Result (Option Credentials)
  load_auth k none = ok none
  load_auth k (some c) = elim c.auth [
    | some auth ↦ ok (some c)
    | none ↦ elim (keys.decrypt k c.secret) [
      | err e ↦ err e
      | ok bytes ↦ ok (some (record c { auth = some (decode_base64_if_needed bytes) }))
    ]
  ]

  -- the key of a decrypted text
  unfoldable pub make_key : CustomKey → Result Bytes → Result (Option CustomKey)
  make_key c (err e) = err e
  make_key c (ok bytes) = elim (keys.new_aes256_key (decode_base64_if_needed bytes)) [
    | err e ↦ err e
    | ok key ↦ ok (some (record c { aes256_key = some key }))
  ]

  unfoldable pub load_key : K → Option CustomKey → Result (Option CustomKey)
  load_key k none = ok none
  load_key k (some c) = elim c.aes256_key [
    | some key ↦ ok (some c)
    | none ↦ make_key c (keys.decrypt k c.secret)
  ]

  -- the resource with its secrets; what was loaded before an error stays
  unfoldable pub load_secrets : K → Resource → Option Error × Resource
  load_secrets k r = elim (load_auth k r.credentials) [
    | err e ↦ (some e, r)
    | ok credentials ↦ elim (load_key k r.custom_key) [
      | err e ↦ (some e, record r { credentials = credentials })
      | ok custom_key ↦ (none, record r { credentials = credentials; custom_key = custom_key })
    ]
  ]

  -- `Init`; the service is opened once, for the first resource that wants one
  unfoldable pub init : Option K → List (Option Resource) → Option Error × List (Option Resource)
  init k [] = (none, [])
  init k (none ∷ rest) = let (e, done) = init k rest in (e, none ∷ done)
  init k (some r ∷ rest) =
      let go = λ (q : Option K). init q rest in
      if is_settled r then next_resource r (go k) else (elim (opened k) [
        | err e ↦ (some e, some r ∷ rest)
        | ok service ↦ after_load (load_secrets service r) rest (go (some service))
      ])

module _ {K : Type 0} (keys : Keys K) (urls : Urls) where
  abbrev pub optional : (Bytes → StorageOption) → Option Bytes → List StorageOption
  optional f none = []
  optional f (some x) = f x ∷ []

  abbrev pub key_of : Option CustomKey → Option Bytes
  key_of none = none
  key_of (some c) = c.aes256_key

  -- the options that need no credentials
  unfoldable pub plain_options : Resource → List StorageOption
  plain_options r =
      optional key_option (key_of r.custom_key)
      ++ optional proxy_option r.proxy
      ++ optional grant_option r.grant
      ++ optional acl_option r.acl
      ++ optional encryption_option r.server_side_encryption

  abbrev pub region_of : Resource → List StorageOption
  region_of r = if is_empty r.region then [] else region_option r.region ∷ []

  -- the options of the credentials, by the URL's scheme
  unfoldable pub auth_options : Resource → Bytes → Result (List StorageOption)
  auth_options r auth =
      let scheme = urls.scheme r.url in
      if not (keys.valid_json auth)
      then err (errorf (codes "invalid credentials format, expected JSON but had: " ++ auth))
      else (if same scheme (codes "gs")
          then (elim (keys.new_jwt_config auth) [
            | err e ↦ err (wrap (codes "failed to create goolge secrets: " ++ auth) e)
            | ok jwt ↦ ok (jwt_option jwt ∷ [])
          ])
          else (if same scheme (codes "s3")
              then (elim (keys.new_auth_config auth) [
                | err e ↦ err (wrap (codes "failed to create aws secrets: " ++ auth) e)
                | ok config ↦ ok (auth_option config ∷ region_of r)
              ])
              else ok []))

  abbrev pub auth_of : Option Credentials → Bytes
  auth_of none = []
  auth_of (some c) = elim c.auth [ none ↦ [] | some auth ↦ auth ]

  -- `StorageOpts`
  unfoldable pub storage_opts : Option Resource → Result (List StorageOption)
  storage_opts none = ok []
  storage_opts (some r) =
      if is_empty r.url || is_empty (auth_of r.credentials)
      then ok (plain_options r)
      else (elim (auth_options r (auth_of r.credentials)) [
        | err e ↦ err e
        | ok options ↦ ok (plain_options r ++ options)
      ])
