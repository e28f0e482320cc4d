-- ===== src/Cron/Polling.antt =====
-- `Tick` of cron/service.go with response.go. The notifications of a rule's files run side by side;
-- each is one step here, and the steps follow one another in a given order, all of them before the
-- response is read.
pub mod Finding
pub mod Again
use smirror.Prelude.{
  ℕ, zero, suc, ◌-◌, ◌*◌, List, [], ◌∷◌, ◌++◌, Bool, true, false, ◌&&◌, not, Option, none, some,
  Bytes, Error, errorf, wrap, Result, ok, err, is_empty, length, map, if◌then◌else◌,
}
use smirror.Text.Search.{codes}
use smirror.Text.Decimal.{decimal}
use smirror.Text.Paths.{split_path}
use smirror.Maps.{put}
use smirror.External.{Urls}
use smirror.Act.{
  Act, pure, fail, lift, lift_error, get, modify, continue, ◌>>=◌, ◌>>◌, wrapping, wrapped,
}
use smirror.Config.Types.{Resource, Basic}
use smirror.Config.Expansion.{clone_with_url}
use smirror.Reload.{Listed}
use smirror.Proxy.{StorageOption}
use smirror.Proxy
use smirror.Cron.Rules.{Rule, Ruleset, RuleFiles, reload_if_needed}
use smirror.Cron.Processed.{MetaStore, pending_resources, add_processed}

pub record Matched : Type 0 where
  pub resource : Rule
  pub urls : List Bytes

-- cron/response.go; the embedded response of the proxy is `base`
pub record Response : Type 0 where
  pub base : Proxy.Response
  pub matched : List Matched

unfoldable pub new_response : Response
new_response = record { base = Proxy.new_response; matched = [] }

-- `Matched.Add`
unfoldable pub add_urls : List Listed → Matched → Matched
add_urls objects m = record m { urls = m.urls ++ map (λ o. o.url) objects }

-- `afs.Service` and the secrets; `W` is what they change. The time is that of the world.
pub record Services (W : Type 0) : Type 0 where
  pub now : W → ℕ
  -- the objects below a URL that were modified after a time
  pub list : W → Bytes → List StorageOption → ℕ → Result (List Listed)
  pub storage_options : W → Resource → Result (List StorageOption)
  pub init_secrets : List Resource → W → Option Error × W
  pub rule_files : W → RuleFiles
  pub meta_store : MetaStore W
  -- the order in which the notifications end
  pub order : List Listed → List Listed

-- `service` and its configuration; folders nest less deep than `max_depth`
pub record Service (W : Type 0) : Type 0 where
  pub urls : Urls
  pub services : Services W
  pub proxy : Proxy.Service W
  pub meta_url : Bytes
  pub time_window : ℕ
  pub max_depth : ℕ

pub record Run (W : Type 0) : Type 0 where
  pub world : W
  pub response : Response
  pub resources : Ruleset

abbrev pub too_deep : Error
too_deep = errorf (codes "folders nest too deep")

module _ {W : Type 0} (service : Service W) where
  -- the filter's test of a file
  unfoldable pub is_candidate : Basic → Listed → Bool
  is_candidate filter o = filter.matches (split_path (service.urls.base o.url).1).0 o.name

  abbrev pub joined : Result (List Listed) → Result (List Listed) → Result (List Listed)
  joined (err e) rest = err e
  joined (ok inner) (err e) = err e
  joined (ok inner) (ok outer) = ok (inner ++ outer)

  -- an element of a listing, with what the rest of it gives; the first is skipped if it is a directory
  unfoldable pub append_object :
      (Bytes → Result (List Listed))
      → Basic
      → Bool
      → Listed
      → Result (List Listed)
      → Result (List Listed)
  append_object descend filter first o rest =
      if o.is_dir
      then (if first then rest else joined (descend o.url) rest)
      else (if is_candidate filter o then joined (ok (o ∷ [])) rest else rest)

  -- the loop over a listing
  unfoldable pub append_listed :
      (Bytes → Result (List Listed)) → Basic → Bool → List Listed → Result (List Listed)
  append_listed descend filter first [] = ok []
  append_listed descend filter first (o ∷ objects) =
      append_object descend filter first o (append_listed descend filter false objects)

  unfoldable pub append_resources :
      ℕ → (Bytes → Result (List Listed)) → Basic → Bytes → Result (List Listed)
  append_resources zero list filter url = err too_deep
  append_resources (suc n) list filter url = elim (list url) [
    | err e ↦ err e
    | ok objects ↦ append_listed (append_resources n list filter) filter true objects
  ]

  unfoldable pub get_resource_candidates : Rule → W → Result (List Listed)
  get_resource_candidates rule w = elim (service.services.storage_options w rule.source) [
    | err e ↦ err e
    | ok options ↦
        append_resources service.max_depth
          (λ url.
            service.services.list w url options (service.services.now w - service.time_window))
          rule.source.basic rule.source.url
  ]

  unfoldable pub put_each : List (Bytes × Bytes) → List (Bytes × Bytes) → List (Bytes × Bytes)
  put_each [] entries = entries
  put_each ((k, v) ∷ more) entries = put_each more (put k v entries)

  unfoldable pub merge : Proxy.Response → Proxy.Response → Proxy.Response
  merge from r = record r {
    copied = put_each from.copied r.copied;
    moved = put_each from.moved r.moved;
    invoked = put_each from.invoked r.invoked;
  }

  -- what `notify` makes of the proxy's response
  unfoldable pub note_proxied : Proxy.Response × W → Act (Run W) (Unit {0})
  note_proxied (r, w) s =
      if is_empty r.error
      then (
        ok tt,
        record s { world = w; response = record s.response { base = merge r s.response.base } },
      )
      else (err (errorf r.error), record s { world = w })

  unfoldable pub notify : Rule → Listed → Act (Run W) (Unit {0})
  notify rule o s =
      let source = clone_with_url rule.source o.url in
      note_proxied
        (Proxy.proxy_source service.proxy source
          (record { source = some source; dest = rule.dest; move = rule.move; stream = true })
          s.world)
        s

  abbrev pub first_failure : Result (Unit {0}) → Result (Unit {0}) → Result (Unit {0})
  first_failure (ok _) later = later
  first_failure (err e) later = err e

  -- The notifications in the order in which they end; the first error is the result.
  unfoldable pub notify_all : Rule → List Listed → Act (Run W) (Unit {0})
  notify_all rule [] s = (ok tt, s)
  notify_all rule (o ∷ objects) s =
      let (r, s') = notify rule o s in
      let (later, end) = notify_all rule objects s' in (first_failure r later, end)

  -- `processResource` behind the pending files
  unfoldable pub announce : Rule → List Listed → Act (Run W) (List Listed)
  announce rule [] s = (ok [], s)
  announce rule (o ∷ objects) s =
      let pending : List Listed = o ∷ objects in
      continue
        (wrapped (codes "failed to notify all")
          (notify_all rule (service.services.order pending) s))
        (λ _ s1.
          let (e, w) =
            add_processed service.services.meta_store service.meta_url (service.time_window * 2)
              (service.services.now s1.world) pending s1.world in
          continue
            (wrapped (codes "failed to update processed") (lift_error e (record s1 { world = w })))
            (λ _. pure pending))

  unfoldable pub process_resource : Rule → Act (Run W) (List Listed)
  process_resource rule s = elim (get_resource_candidates rule s.world) [
    | err e ↦ (err (wrap (codes "failed to get resource candidate " ++ rule.source.url) e), s)
    | ok objects ↦
        elim (pending_resources service.services.meta_store service.meta_url
          (service.time_window * 2) objects s.world) [
            | err e ↦ (
              err (wrap (codes "failed to read pending resource " ++ decimal (length objects)) e),
              s,
            )
            | ok pending ↦ announce rule pending s
          ]
  ]

  -- the entry of a rule that had pending files
  unfoldable pub note_matched : Rule → List Listed → Run W → Run W
  note_matched rule [] s = s
  note_matched rule (o ∷ objects) s = record s {
    response = record s.response {
      matched =
          s.response.matched ++ add_urls (o ∷ objects) (record { resource = rule; urls = [] }) ∷ [];
    };
  }

  -- the loop over the rules
  unfoldable pub process_rules : List Rule → Act (Run W) (Unit {0})
  process_rules [] s = (ok tt, s)
  process_rules (rule ∷ rules) s =
      continue (process_resource rule s)
        (λ processed s1. process_rules rules (note_matched rule processed s1))

  unfoldable pub rule_resources : List Rule → List Resource
  rule_resources [] = []
  rule_resources (rule ∷ rules) = rule.source ∷ rule.dest ∷ rule_resources rules

  unfoldable pub update_secrets : Act (Run W) (Unit {0})
  update_secrets s =
      let (e, w) = service.services.init_secrets (rule_resources s.resources.rules) s.world in
      lift_error e (record s { world = w })

  -- the reload in front of a poll
  unfoldable pub refresh : Act (Run W) (Unit {0})
  refresh s =
      let ((changed, e), loaded) =
        reload_if_needed (service.services.rule_files s.world) (service.services.now s.world)
          s.resources in
      elim e [
        | some failure ↦ (err failure, record s { resources = loaded })
        | none ↦
            if changed
            then update_secrets (record s { resources = loaded })
            else (ok tt, record s { resources = loaded })
      ]

  unfoldable pub tick : Act (Run W) (Unit {0})
  tick s = continue (refresh s) (λ _ s1. process_rules s1.resources.rules s1)

  unfoldable pub settle : Result (Unit {0}) × Run W → Run W
  settle (ok _, s) = s
  settle (err e, s) = record s {
    response = record s.response {
      base = record s.response.base { status = Proxy.status_error; error = e.message };
    };
  }

  -- `Tick`
  unfoldable pub tick_request : W → Ruleset → Run W
  tick_request w loaded =
      settle (tick (record { world = w; response = new_response; resources = loaded }))
