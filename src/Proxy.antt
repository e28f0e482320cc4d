-- ===== src/Proxy.antt =====
-- proxy/service.go with request.go and response.go: a file's event is answered by copying or moving
-- the file, or by invoking a function.
pub mod Outcomes
pub mod Statuses
pub mod Samples
use smirror.Prelude.{
  ℕ, List, [], ◌∷◌, ◌++◌, Bool, true, false, ◌&&◌, ◌||◌, not, Option, none, some, ltb, Bytes, Error,
  errorf, wrap, Result, ok, err, is_empty, length, if◌then◌else◌,
}
use smirror.Text.Search.{codes, same}
use smirror.Text.Parts.{trim}
use smirror.Text.Paths.{split_path, join_path}
use smirror.Maps.{put}
use smirror.External.{Urls}
use smirror.Config.Types.{Resource}
use smirror.Act.{
  Act, pure, fail, lift, lift_error, get, modify, continue, ◌>>=◌, ◌>>◌, wrapping, wrapped,
}

-- proxy/request.go; the source may be nil
pub record Request : Type 0 where
  pub source : Option Resource
  pub dest : Resource
  pub move : Bool
  pub stream : Bool

-- the statuses of base/const.go that a proxy answers with
pub data Status : Type 0 where
  status_ok status_error status_no_match : Status

pub record Response : Type 0 where
  pub copied : List (Bytes × Bytes)
  pub moved : List (Bytes × Bytes)
  pub invoked : List (Bytes × Bytes)
  pub status : Status
  pub error : Bytes

unfoldable pub new_response : Response
new_response = record { copied = []; moved = []; invoked = []; status = status_ok; error = [] }

unfoldable pub add_copied : Bytes → Bytes → Response → Response
add_copied key value r = record r { copied = put key value r.copied }

unfoldable pub add_moved : Bytes → Bytes → Response → Response
add_moved key value r = record r { moved = put key value r.moved }

unfoldable pub add_invoked : Bytes → Bytes → Response → Response
add_invoked key value r = record r { invoked = put key value r.invoked }

-- The options of a resource's secrets, and `option.NewAuth(true)`.
pub data StorageOption : Type 0 where
  aes256_key : Bytes → StorageOption
  secret_option : Bytes → StorageOption
  auth_option : StorageOption

-- `option.NewSource` and `option.NewDest`
pub data TransferOption : Type 0 where
  for_source : List StorageOption → TransferOption
  for_dest : List StorageOption → TransferOption

-- event/s3event.go: a record's bucket and key
pub record S3Record : Type 0 where
  pub bucket : Bytes
  pub key : Bytes

-- `afs.Service`, the secrets' options and the client of Lambda; `W` is what they change.
pub record Services (W : Type 0) : Type 0 where
  pub storage_options : W → Resource → Result (List StorageOption)
  pub object : W → Bytes → List StorageOption → Option Error
  pub exists : W → Bytes → Result Bool
  pub copy : Bytes → Bytes → List TransferOption → W → Option Error × W
  pub move : Bytes → Bytes → List TransferOption → W → Option Error × W
  pub new_session : W → Option Error
  pub invoke : Bytes → Bytes → W → Option Error × W
  -- `json.Marshal` of an event
  pub json_s3_event : List S3Record → Result Bytes

-- `service`: its parameters, and the `Match` of its configured source
pub record Service (W : Type 0) : Type 0 where
  pub urls : Urls
  pub services : Services W
  pub source_matches : Bytes → Bytes → Bool

pub record Run (W : Type 0) : Type 0 where
  pub world : W
  pub response : Response

unfoldable pub new_s3_event_for_url : Urls → Bytes → List S3Record
new_s3_event_for_url urls url =
    record { bucket = urls.host url; key = trim (urls.path url) (codes "/") } ∷ []

-- `resourceURL`
unfoldable pub resource_url : S3Record → Bytes
resource_url r = codes "s3://" ++ r.bucket ++ codes "/" ++ r.key

unfoldable pub event_url : List S3Record → Bytes
event_url [] = []
event_url (r ∷ rs) = resource_url r

unfoldable pub validate : Request → Option Error
validate request = elim request.source [
  | none ↦ some (errorf (codes "source was empty"))
  | some source ↦
      if is_empty source.url
      then some (errorf (codes "source.url was empty"))
      else (if is_empty request.dest.url then some (errorf (codes "dest.url was empty")) else none)
]

unfoldable pub add_triggered : Bool → Bytes → Bytes → Response → Response
add_triggered true key value r = add_moved key value r
add_triggered false key value r = add_copied key value r

-- whether every option of the source is the key of an encryption
unfoldable pub is_keyed : List StorageOption → Bool
is_keyed (aes256_key key ∷ []) = true
is_keyed options = false

-- The options of the transfer. What the source adds for a stream later on does not reach them.
unfoldable pub transfer_options : List StorageOption → List StorageOption → List TransferOption
transfer_options [] [] = []
transfer_options [] (d ∷ ds) = for_dest (d ∷ ds) ∷ []
transfer_options (s ∷ ss) dest =
    if is_keyed (s ∷ ss)
    then (elim dest [
      | [] ↦ for_source (s ∷ ss) ∷ []
      | d ∷ ds ↦ for_source (s ∷ ss) ∷ for_dest (d ∷ ds) ∷ []
    ])
    else for_source (s ∷ ss) ∷ for_dest (dest ++ auth_option ∷ []) ∷ []

module _ {W : Type 0} (service : Service W) where
  abbrev pub respond : (Response → Response) → Act (Run W) (Unit {0})
  respond f s = (ok tt, record s { response = f s.response })

  unfoldable pub invoke_lambda : Resource → Request → Act (Run W) (Unit {0})
  invoke_lambda source request s =
      let function = service.urls.host request.dest.url in
      elim (service.services.new_session s.world) [
        | some e ↦ (err e, s)
        | none ↦
            elim (service.services.json_s3_event (new_s3_event_for_url service.urls source.url)) [
              | err e ↦ (err e, s)
              | ok payload ↦
                  let (e, w) = service.services.invoke function payload s.world in
                  lift_error e
                    (record { world = w; response = add_invoked function payload s.response })
            ]
      ]

  -- the answer to a failed transfer, with what `Exists` gives then
  unfoldable pub missing : Bool → Bytes → Option Error → Result Bool → Act (Run W) (Unit {0})
  missing is_move source_url none found s = (ok tt, s)
  missing is_move source_url (some e) (ok false) s = (
    ok tt,
    record s { response = add_triggered is_move source_url (codes "notFound") s.response },
  )
  missing is_move source_url (some e) (ok true) s = (err e, s)
  missing is_move source_url (some e) (err failed) s = (err e, s)

  unfoldable pub trigger : Bool → Bytes → Bytes → List TransferOption → W → Option Error × W
  trigger true source dest options w = service.services.move source dest options w
  trigger false source dest options w = service.services.copy source dest options w

  unfoldable pub propagate : Bool → Bytes → Bytes → List TransferOption → Act (Run W) (Unit {0})
  propagate is_move source_url dest_url options s =
      let (e, w) = trigger is_move source_url dest_url options s.world in
      missing is_move source_url e (service.services.exists w source_url)
        (record { world = w; response = add_triggered is_move source_url dest_url s.response })

  unfoldable pub proxied_url : Bytes → Bytes → Bytes
  proxied_url source_url dest_url =
      service.urls.join dest_url
        (join_path (service.urls.host source_url) (service.urls.base source_url).1)

  -- the lookup of an object that is to be streamed
  unfoldable pub find_source : Request → Resource → List StorageOption → W → Result (Unit {0})
  find_source request source options w =
      if request.stream
      then (elim (service.services.object w source.url options) [
        | some e ↦ err (wrap (codes "source not found: " ++ source.url) e)
        | none ↦ ok tt
      ])
      else ok tt

  -- `proxy` behind the choice of a scheme
  unfoldable pub proxy_file : Resource → Request → Act (Run W) (Unit {0})
  proxy_file source request s =
      (do
        source_options ← lift (service.services.storage_options s.world source)
        dest_options ← lift (service.services.storage_options s.world request.dest)
        lift (find_source request source source_options s.world)
        propagate request.move source.url (proxied_url source.url request.dest.url)
            (transfer_options source_options dest_options))
        s

  unfoldable pub proxy : Resource → Request → Act (Run W) (Unit {0})
  proxy source request = elim (validate request) [
    | some e ↦ fail e
    | none ↦
        let scheme = service.urls.scheme request.dest.url in
        if same scheme (codes "lambda")
        then invoke_lambda source request
        else (if same scheme (codes "cloudfunction")
            then fail (errorf (codes "calling cloud function is not yet supported"))
            else proxy_file source request)
  ]

  unfoldable pub settle : Result (Unit {0}) × Run W → Response × W
  settle (ok _, s) = (s.response, s.world)
  settle (err e, s) = (record s.response { status = status_error; error = e.message }, s.world)

  -- `Proxy`, of a request whose source is not nil
  unfoldable pub proxy_source : Resource → Request → W → Response × W
  proxy_source source request w =
      let (parent, name) = split_path (service.urls.path source.url) in
      if service.source_matches parent name
      then settle (proxy source request (record { world = w; response = new_response }))
      else (record new_response { status = status_no_match }, w)

  -- `Proxy`: a nil source panics, before it is validated
  unfoldable pub proxy_request : Request → W → Option (Response × W)
  proxy_request request w = elim request.source [
    | none ↦ none
    | some source ↦ some (proxy_source source request w)
  ]
