-- ===== src/Config/Expansion.antt =====
-- `ExpandURL`, `CloneWithURL` and `Init` of config/resource.go.
use smirror.Prelude.{
  ℕ, suc, List, [], ◌∷◌, ◌++◌, map, not, ◌&&◌, ltb, if◌then◌else◌, Bytes, Result, ok, err, is_empty,
  length, drop, ◌==◌,
}
use smirror.Text.Search.{codes, count, replace, contains}
use smirror.Text.Parts.{split}
use smirror.Text.Decimal.{decimal}
use smirror.External.{Urls}
use smirror.Config.Types.{Resource, empty_resource}

-- Package regexp and the text expansion of github.com/viant/toolbox.
pub record Expansions : Type 0 where
  -- the error of `Compile`, or what `FindStringSubmatch` finds in a text
  pub submatches : Bytes → Bytes → Result (List Bytes)
  pub expand_udf : Bytes → Bytes
  pub expand_params : List (Bytes × Bytes) → Bytes → Bytes

-- the loop over the groups of a match, from group `i`
unfoldable pub expand_groups : ℕ → List Bytes → Bytes → Bytes
expand_groups i [] expression = expression
expand_groups i (m ∷ matched) expression =
    let key = b'$' ∷ decimal i in
    let n = count expression key in
    expand_groups (suc i) matched (if ltb 0 n then replace expression key m n else expression)

unfoldable pub expand_url : Urls → Expansions → Resource → Bytes → Result Bytes
unfolding expand_groups
expand_url urls lib r source_url =
    if not (is_empty r.pattern) && not (is_empty r.parameters)
    then elim (lib.submatches r.pattern (urls.base source_url).1) [
      | err e ↦ err e
      | ok matched ↦ ok (
          lib.expand_params
            (map (λ p. (p.name, lib.expand_udf (expand_groups 1 (drop 1 matched) p.expression)))
              r.parameters)
            r.url)
    ]
    else ok r.url

unfoldable pub clone_with_url : Resource → Bytes → Resource
clone_with_url r url = record empty_resource {
  basic = r.basic;
  url = url;
  region = r.region;
  custom_key = r.custom_key;
  proxy = r.proxy;
  grant = r.grant;
  credentials = r.credentials;
  topic = r.topic;
  queue = r.queue;
  project_id = r.project_id;
}

abbrev second : List Bytes → Bytes
second [] = []
second (a ∷ []) = []
second (a ∷ b ∷ rest) = b

-- `strings.Split(topic, "")` cuts the topic into its letters: the second of four.
abbrev letter_of : Bytes → Bytes
letter_of topic = if length (split topic []) == 4 then second (split topic []) else []

-- `Resource.Init`: the topic's full name, and its project.
unfoldable pub init_resource : Bytes → Resource → Resource
init_resource project r =
    if is_empty r.topic
    then r
    else let project_id : Bytes = if is_empty r.project_id then project else r.project_id in
      let topic : Bytes =
        if not (contains r.topic (codes "/")) && not (is_empty project_id)
        then codes "projects/" ++ (project_id ++ (codes "/topics/" ++ r.topic))
        else r.topic in
      record r {
        topic = topic;
        project_id = if is_empty project_id then letter_of topic else project_id;
      }
