-- ===== src/Config/Matching.antt =====
-- `HasMatch` of config/rule.go and the lookups of config/ruleset.go.
pub mod Groups
use smirror.Prelude.{
  List, [], ◌∷◌, Bool, true, false, not, ◌&&◌, Option, none, some, if◌then◌else◌, Bytes, is_empty,
}
use smirror.Text.Search.{codes, same, has_prefix}
use smirror.Text.Paths.{split_path}
use smirror.External.{Urls}
use smirror.Config.Types.{Rule, Resource}

module _ (urls : Urls) where
  unfoldable pub has_match : Rule → Bytes → Bool
  has_match r url =
      let location = urls.path url in
      let (parent, name) = split_path location in
      if not (is_empty r.source.bucket) && not (same (urls.host url) r.source.bucket)
      then false
      else if not (is_empty r.done_marker)
          && (same name r.done_marker && has_prefix location r.source.basic.prefix)
      then true
      else r.source.basic.matches parent name

  -- The loop of `Ruleset.Match`: a match with the URL of the last match is left out.
  unfoldable pub match_from : Bytes → List Rule → Bytes → List Rule
  match_from last [] url = []
  match_from last (r ∷ rules) url = elim (has_match r url) [
    | false ↦ match_from last rules url
    | true ↦ elim (same last r.info.url) [
      | true ↦ match_from last rules url
      | false ↦ r ∷ match_from r.info.url rules url
    ]
  ]

  unfoldable pub match_rules : List Rule → Bytes → List Rule
  unfolding match_from
  match_rules rules url = match_from (codes ".") rules url

-- `Ruleset.Rule`
unfoldable pub rule_of : List Rule → Bytes → Option Rule
rule_of [] url = none
rule_of (r ∷ rules) url =
    let later = rule_of rules url in if same r.info.url url then some r else later
