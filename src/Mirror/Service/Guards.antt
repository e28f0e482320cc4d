-- ===== src/Mirror/Service/Guards.antt =====
-- `mirror` of service.go: when it leaves the storage alone.
use smirror.Prelude.{List, [], ◌∷◌, true, none, Bytes, ◌≡◌, refl}
use smirror.Config.Types.{Rule}
use smirror.Config.Key.{Key}
use smirror.Config.Matching.{match_rules}
use smirror.Splitter.ByPartition.Table.{Buffer}
use smirror.Mirror.State.{Config, Environment, Run, respond}
use smirror.Mirror.Transfers.{Ticket}
use smirror.Mirror.Overflows.{set_status}
use smirror.Mirror.Service.{mirror, mirror_matched, reload, respond_total}

-- The rules that match a URL, where the request is not mirrored: there is none, the only one is
-- disabled, or there are several.
pub data IsInert : List Rule → Type 0 where
  no_match : IsInert []
  disabled : (r : Rule) → r.disabled ≡ true → IsInert (r ∷ [])
  many : (r r2 : Rule) (rules : List Rule) → IsInert (r ∷ r2 ∷ rules)

module _ {W : Type 0} (env : Environment W) (config : Config)
    (order : List (Buffer Key Ticket) → List (Buffer Key Ticket)) where
  mirror_matched-inert :
      (matched : List Rule) (url : Bytes) (s : Run W)
      → IsInert matched
      → (mirror_matched env config order matched url s).1.world ≡ s.world
  unfolding mirror_matched respond_total set_status respond
  mirror_matched-inert _ url s no_match = refl
  mirror_matched-inert _ url s (disabled r h) = rw h
  mirror_matched-inert _ url s (many r r2 rules) = refl

  -- Where the reload of the rules gives no error, `mirror` leaves the storage as the reload left it,
  -- unless exactly one of the reloaded rules matches the URL and that rule is enabled.
  pub mirror-inert :
      (url : Bytes) (s : Run W) (rules : List Rule) (w : W)
      → env.services.reload s.rules s.world ≡ ((none, rules), w)
      → IsInert (match_rules env.urls rules url)
      → (mirror env config order url s).1.world ≡ w
  unfolding mirror reload
  mirror-inert url s rules w reloaded inert = rw reloaded (
      mirror_matched-inert (match_rules env.urls rules url) url
        (record s { world = w; rules = rules }) inert)
