-- ===== src/Config/ChunkNames.antt =====
-- `Split.Name` of config/split.go: the name of a chunk.
use smirror.Prelude.{ℕ, suc, [], ◌∷◌, ◌++◌, none, some, if◌then◌else◌, Bytes, take, drop, is_empty}
use smirror.Text.Search.{codes, contains, index, replace}
use smirror.Text.Paths.{split_path, join_path}
use smirror.External.{Urls}
use smirror.Config.Types.{Split, Rule}
use smirror.Config.RuleNames.{rule_name}
use smirror.Config.Compression.{is_set}

-- the name in front of the first dot, and what stands behind it
unfoldable pub cut_at_dot : Bytes → Bytes × Bytes
cut_at_dot name = elim (index name (codes ".")) [
  | none ↦ (name, [])
  | some i ↦ (take i name, drop (suc i) name)
]

-- the template with the placeholders `$name` and `$partition`, and `%03d` for `$chunk`
unfoldable pub normal_template : Split → Bytes
normal_template s =
    let templ : Bytes =
      if is_empty s.template
      then if is_set s.partition then codes "%04d_%s_%v" else codes "%04d_%s"
      else s.template in
    replace
      (replace (replace templ (codes "%s") (codes "$name") 1) (codes "%v") (codes "$partition") 1)
      (codes "$chunk") (codes "%03d") 1

-- `sprintf` is `fmt.Sprintf` with one number, `partition` the key's text.
unfoldable pub chunk_name : Urls → (Bytes → ℕ → Bytes) → Split → Rule → Bytes → ℕ → Bytes → Bytes
unfolding cut_at_dot normal_template
chunk_name urls sprintf s rule url counter partition =
    let (name, extension) = cut_at_dot (rule_name urls rule url) in
    let (parent, child) = split_path name in
    let named = replace (normal_template s) (codes "$name") child 2 in
    let keyed =
      if contains named (codes "$partition")
      then replace named (codes "$partition") partition 1
      else named in
    let numbered = if contains keyed (codes "%") then sprintf keyed counter else keyed in
    join_path parent (numbered ++ (b'.' ∷ extension))
