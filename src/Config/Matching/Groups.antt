-- ===== src/Config/Matching/Groups.antt =====
-- The matches of a URL, as a selection from the rules.
use smirror.Prelude.{
  List, [], ◌∷◌, true, false, Bytes, ◌≡◌, ◌≢◌, ◌∙◌, refl, sym, ap, arith, select, All, take,
  is_empty, All-select, select-All, inl, inr, Bool-cases,
}
use smirror.Text.Search.{codes, same, same_iff, same→eq}
use smirror.External.{Urls}
use smirror.Config.Types.{Rule}
use smirror.Config.Matching.{has_match, match_from, match_rules}

module _ (urls : Urls) (url : Bytes) where
  abbrev pub candidates : List Rule → List Rule
  candidates rules = select (λ r. has_match urls r url) rules

  -- One rule for each run of neighbours with the same URL.
  unfoldable pub firsts : Bytes → List Rule → List Rule
  firsts last [] = []
  firsts last (r ∷ rules) = elim (same last r.info.url) [
    | true ↦ firsts last rules
    | false ↦ r ∷ firsts r.info.url rules
  ]

  match_from-firsts :
      (last : Bytes) (rules : List Rule)
      → match_from urls last rules url ≡ firsts last (candidates rules)
  unfolding match_from firsts
  match_from-firsts last [] = refl
  match_from-firsts last (r ∷ rules) =
      ground (arith, match_from-firsts last rules, match_from-firsts r.info.url rules)

  firsts-same :
      (u : Bytes) (rules : List Rule) → All (λ r. r.info.url ≡ u) rules → firsts u rules ≡ []
  unfolding firsts
  firsts-same u [] h = refl
  firsts-same u (r ∷ rules) (e, h) =
      rw ((same_iff u r.info.url).1 (sym e), firsts) (firsts-same u rules h)

  firsts-one :
      (last u : Bytes) (rules : List Rule)
      → u ≢ last
      → All (λ r. r.info.url ≡ u) rules
      → firsts last rules ≡ take 1 rules
  unfolding firsts
  firsts-one last u [] ne h = refl
  firsts-one last u (r ∷ rules) ne (e, h) = elim (Bool-cases (same last r.info.url)) [
    | inl same' ↦ absurd (ne (sym (same→eq last r.info.url same' ∙ e)))
    | inr other ↦
        rw (other, firsts)
          (ap (λ (rs : List Rule). r ∷ rs)
            (ap (λ (v : Bytes). firsts v rules) e ∙ firsts-same u rules h))
  ]

  firsts-All :
      (P : Rule → Type 0) (last : Bytes) (rules : List Rule)
      → All P rules
      → All P (firsts last rules)
  unfolding firsts
  firsts-All P last [] h = tt
  firsts-All P last (r ∷ rules) (p, h) = elim (Bool-cases (same last r.info.url)) [
    | inl same' ↦ rw (same', firsts) (firsts-All P last rules h)
    | inr other ↦ rw (other, firsts) (p, firsts-All P r.info.url rules h)
  ]

  firsts-is_empty :
      (last : Bytes) (rules : List Rule)
      → All (λ r. r.info.url ≢ last) rules
      → is_empty (firsts last rules) ≡ is_empty rules
  unfolding firsts
  firsts-is_empty last [] h = refl
  firsts-is_empty last (r ∷ rules) (ne, h) = elim (Bool-cases (same last r.info.url)) [
    | inl same' ↦ absurd (ne (sym (same→eq last r.info.url same')))
    | inr other ↦ rw (other, firsts)
  ]

  -- When every rule that matches comes from one file, whose URL is not ".", the first of them is the
  -- match, and there is none only if no rule matches.
  match_rules-one_file :
      (u : Bytes) (rules : List Rule)
      → u ≢ codes "."
      → All (λ r. r.info.url ≡ u) (candidates rules)
      → match_rules urls rules url ≡ take 1 (candidates rules)
  unfolding match_rules
  match_rules-one_file u rules ne h =
      match_from-firsts (codes ".") rules ∙ firsts-one (codes ".") u (candidates rules) ne h

  -- Every match is a rule that has the match, and there is no match only if no rule has it, provided
  -- that no rule's URL is ".".
  pub match_rules_complete :
      (rules : List Rule)
      → All (λ r. r.info.url ≢ codes ".") rules
      → All (λ r. has_match urls r url ≡ true) (match_rules urls rules url)
        × (is_empty (match_rules urls rules url) ≡ is_empty (candidates rules))
  unfolding match_rules
  match_rules_complete rules h = rw (match_from-firsts (codes ".") rules) (
    firsts-All (λ r. has_match urls r url ≡ true) (codes ".") (candidates rules)
        (select-All (λ r. has_match urls r url) rules),
    firsts-is_empty (codes ".") (candidates rules)
        (All-select (λ r. r.info.url ≢ codes ".") (λ r. has_match urls r url) rules h),
  )
