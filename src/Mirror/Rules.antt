-- ===== src/Mirror/Rules.antt =====
-- `initActions` and `initRule` of service.go, and `UseMessageDest` of config.go: what a rule lacks is
-- taken from the configuration when the rule is first used. The source changes the rule in place;
-- a second round changes nothing more, so that the model hands the changed rule on.
use smirror.Prelude.{
  List, [], ◌∷◌, ◌++◌, Bool, true, not, ◌&&◌, ◌||◌, Option, if◌then◌else◌, Bytes, errorf, is_empty,
  any, map, ◌≡◌, ◌⊎◌, arith,
}
use smirror.Text.Search.{codes, same}
use smirror.Config.Types.{Credentials, Resource, Rule, Action}
use smirror.Config.Compression.{is_set}
use smirror.Act.{Act, pure, fail, get, modify, ◌>>=◌, ◌>>◌, wrapping}
use smirror.Mirror.State.{Config, Environment, Run, effect}

abbrev pub pubsub_vendor : Bytes
pubsub_vendor = codes "pubsub"

abbrev pub sqs_vendor : Bytes
sqs_vendor = codes "sqs"

-- a notification without credentials takes those of the configuration
unfoldable pub init_action : Option Credentials → Action → Action
init_action slack a =
    if same a.action (codes "notify") && not (is_set a.credentials)
    then record a { credentials = slack }
    else a

unfoldable pub init_actions : Option Credentials → List Action → List Action
init_actions slack actions = map (init_action slack) actions

-- `Rule.Resources` of config/rule.go
unfoldable pub resources : Rule → List Resource
resources r =
    let needs_secret : Resource → Bool = λ s. is_set s.credentials || is_set s.custom_key in
    (if needs_secret r.source then r.source ∷ [] else [])
    ++ (if needs_secret r.dest then r.dest ∷ [] else [])

-- the vendor that the destination's fields name: a queue prevails
abbrev pub vendor_of_fields : Resource → Bytes
vendor_of_fields dest =
    if not (is_empty dest.queue)
    then sqs_vendor
    else if not (is_empty dest.topic)
    then pubsub_vendor
    else []

unfoldable pub choose_vendor : Bytes → Resource → Bytes
choose_vendor scheme dest =
    if not (is_empty dest.vendor)
    then dest.vendor
    else if same scheme (codes "gs")
    then pubsub_vendor
    else if same scheme (codes "s3")
    then sqs_vendor
    else vendor_of_fields dest

-- `UseMessageDest`
unfoldable pub use_message_dest : List Rule → Bool
use_message_dest rules = any (λ r. not (is_empty r.dest.topic) || not (is_empty r.dest.queue)) rules

module _ {W : Type 0} (env : Environment W) (config : Config) where
  unfoldable pub new_bus : Bytes → Bytes → Act (Run W) (Unit {0})
  new_bus vendor project = do
    wrapping (codes "unable to create " ++ (vendor ++ (codes " publisher for " ++ vendor)))
        (effect (env.services.new_bus vendor project))
    modify (λ s. record s { bus_ready = true })

  -- The bus of a vendor. The project is a configured one, or `GCLOUD_PROJECT`.
  unfoldable pub open_bus : Bytes → Act (Run W) (Unit {0})
  open_bus vendor =
      if same vendor pubsub_vendor
      then new_bus vendor config.project_id
      else if same vendor sqs_vendor
      then new_bus vendor []
      else fail (errorf (codes "unsupported message bus vendor: '" ++ (vendor ++ codes "'")))

  abbrev pub with_actions : Rule → Rule
  with_actions r = record r {
    actions = record {
      on_success = init_actions config.slack_credentials r.actions.on_success;
      on_failure = init_actions config.slack_credentials r.actions.on_failure;
    };
  }

  abbrev pub with_vendor : Rule → Rule
  with_vendor r = record r {
    dest = record r.dest { vendor = choose_vendor config.source_scheme r.dest };
  }

  unfoldable pub init_secrets : List Resource → Act (Run W) (Unit {0})
  init_secrets [] = pure tt
  init_secrets (r ∷ rs) =
      wrapping (codes "failed to init resource secrets")
        (effect (env.services.init_secrets (r ∷ rs)))

  unfoldable pub init_bus : Rule → Act (Run W) Rule
  init_bus r = do
    run ← get
    if use_message_dest run.rules && not run.bus_ready
        then (do
          modify (λ s. record s { bus_vendor = (with_vendor r).dest.vendor })
          open_bus (with_vendor r).dest.vendor
          pure (with_vendor r))
        else pure r

  unfoldable pub init_rule : Rule → Act (Run W) Rule
  init_rule r = do init_secrets (resources r); init_bus (with_actions r)

-- Where the fields of the destination or the scheme name a vendor, it is one of a bus that can be
-- opened, unless the rule names another one.
choose_vendor-IsKnown :
    (scheme : Bytes) (dest : Resource)
    → dest.vendor ≡ []
    → (not (is_empty dest.topic) || not (is_empty dest.queue)) ≡ true
    → (choose_vendor scheme dest ≡ pubsub_vendor) ⊎ (choose_vendor scheme dest ≡ sqs_vendor)
unfolding choose_vendor
choose_vendor-IsKnown scheme dest no_vendor is_message = ground (arith, no_vendor)
