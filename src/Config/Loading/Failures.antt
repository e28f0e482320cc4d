-- ===== src/Config/Loading/Failures.antt =====
-- That a file of rules which fails to load leaves the other files' rules in force.
use smirror.Prelude.{
  zero, List, [], ◌∷◌, ◌++◌, map, true, false, Option, some, none, Bytes, Error, Result, errorf,
  wrap, ok, err, All, Bool-cases, ◌≡◌, ◌⊎◌, inl, inr, ap, ◌∙◌, Result-cases, Option-cases, arith,
  append_assoc, append-nil, sym, refl,
}
use smirror.Text.Search.{codes}
use smirror.Text.Paths.{ext}
use smirror.External.{Urls}
use smirror.Config.Types.{Rule, Draft}
use smirror.SchemaReader.Fields.{Toolbox}
use smirror.Reload.{Listed, is_route}
use smirror.Config.Loading.{
  Sources, rules_of, failed, init_rule, init_rules, validate, validate_rule, load_rules, with_url,
  name_rule, accept_rules, prepare_rules, load_resources, load_files,
}

module _ {W Y M V T : Type 0} (urls : Urls) (sources : Sources W Y M) (toolbox : Toolbox V T)
    (w : W) where
  abbrev pub inited : Draft → Draft
  inited d = record d { rule = (init_rule urls sources toolbox w d.rule).1 }

  abbrev pub init_error : Draft → Option Error
  init_error d = (init_rule urls sources toolbox w d.rule).0

  -- A rule that has a source and a destination, and is initialised without an error.
  abbrev pub IsFine : Draft → Type 0
  IsFine d = (d.has_source ≡ true) × (d.has_dest ≡ true) × (init_error d ≡ none)

  -- One of the rules has no source or no destination, or is not initialised.
  abbrev pub HasSpoiled : List Draft → Type 0
  HasSpoiled [] = zero ≡ 1
  HasSpoiled (d ∷ ds) =
      (d.has_source ≡ false)
      ⊎ (d.has_dest ≡ false)
      ⊎ ((e : Error) × (init_error d ≡ some e))
      ⊎ HasSpoiled ds

  -- A file can be read and decoded into rules, of which the first one is given the file's URL.
  abbrev pub IsRead : Listed → List Draft → Type 0
  IsRead o drafts =
      (content : Bytes) × (first : Draft) × (others : List Draft) × (sources.open_object w o
        ≡ ok (ok content))
      × (load_rules urls sources toolbox content (ext o.name) ≡ ok (first ∷ others))
      × (drafts ≡ with_url urls sources toolbox o.url first ∷ others)

  -- What an element of a folder adds to the rules.
  pub data Adds : Listed → List Rule → Type 0 where
    no_file : (o : Listed) → is_route o ≡ false → Adds o []
    unopened :
        (o : Listed) (e : Error) → is_route o ≡ true → sources.open_object w o ≡ err e → Adds o []
    unread :
        (o : Listed) (e : Error)
        → is_route o ≡ true
        → sources.open_object w o ≡ ok (err e)
        → Adds o []
    undecoded :
        (o : Listed) (content : Bytes) (e : Error)
        → is_route o ≡ true
        → sources.open_object w o ≡ ok (ok content)
        → load_rules urls sources toolbox content (ext o.name) ≡ err e
        → Adds o []
    spoiled :
        (o : Listed) (drafts : List Draft)
        → is_route o ≡ true
        → IsRead o drafts
        → HasSpoiled drafts
        → Adds o []
    sound :
        (o : Listed) (drafts : List Draft)
        → is_route o ≡ true
        → IsRead o drafts
        → All IsFine drafts
        → Adds o (map (λ d. name_rule urls sources toolbox o (inited d)) drafts)

  pub data AddsEach : List Listed → List Rule → Type 0 where
    no_more : AddsEach [] []
    next :
        {o : Listed} {added : List Rule} {objects : List Listed} {rest : List Rule}
        → Adds o added
        → AddsEach objects rest
        → AddsEach (o ∷ objects) (added ++ rest)

  init_rules-fine :
      (drafts : List Draft)
      → All IsFine drafts
      → init_rules urls sources toolbox w drafts ≡ ok (map inited drafts)
  unfolding init_rules
  init_rules-fine [] h = refl
  init_rules-fine (d ∷ ds) ((_, _, inits), h) =
      rw (inits, init_rules) (rw (init_rules-fine ds h) refl)

  validate-fine : (drafts : List Draft) → All IsFine drafts → validate (map inited drafts) ≡ none
  unfolding validate validate_rule
  validate-fine [] h = refl
  validate-fine (d ∷ ds) ((source, dest, _), h) = ground (arith, source, dest, validate-fine ds h)

  -- Of the results of `Init`, an error or an invalid rule.
  abbrev Fails : Result (List Draft) → Type 0
  Fails (err e) = Unit
  Fails (ok drafts) = (e : Error) × (validate drafts ≡ some e)

  validate_later :
      (d : Draft) (ds : List Draft) (e : Error)
      → validate ds ≡ some e
      → (e' : Error) × (validate (d ∷ ds) ≡ some e')
  unfolding validate
  validate_later d ds e h = elim (Option-cases (validate_rule d)) [
    | inl valid ↦ (e, rw (valid, validate) h)
    | inr (e', invalid) ↦ (e', rw (invalid, validate) refl)
  ]

  spoiled_rule :
      (d : Draft)
      → (d.has_source ≡ false) ⊎ (d.has_dest ≡ false)
      → (e : Error) × (validate_rule d ≡ some e)
  unfolding validate_rule
  spoiled_rule d (inl no_source) = (errorf (codes "source was empty"), ground (arith, no_source))
  spoiled_rule d (inr no_dest) = elim (Bool-cases d.has_source) [
    | inl source ↦ (errorf (codes "dest was empty"), ground (arith, source, no_dest))
    | inr no_source ↦ (errorf (codes "source was empty"), ground (arith, no_source))
  ]

  validate_first :
      (d : Draft) (ds : List Draft)
      → (d.has_source ≡ false) ⊎ (d.has_dest ≡ false)
      → (e : Error) × (validate (d ∷ ds) ≡ some e)
  unfolding validate
  validate_first d ds h = let (e, bad) = spoiled_rule d h in (e, rw (bad, validate) refl)

  validate-HasSpoiled :
      (d : Draft) (ds rest : List Draft)
      → init_error d ≡ none
      → (HasSpoiled ds → (e : Error) × (validate rest ≡ some e))
      → HasSpoiled (d ∷ ds)
      → (e : Error) × (validate (inited d ∷ rest) ≡ some e)
  validate-HasSpoiled d ds rest inits later (inl source) =
      validate_first (inited d) rest (inl source)
  validate-HasSpoiled d ds rest inits later (inr (inl dest)) =
      validate_first (inited d) rest (inr dest)
  validate-HasSpoiled d ds rest inits later (inr (inr (inl (e, bad)))) = ground (arith, inits, bad)
  validate-HasSpoiled d ds rest inits later (inr (inr (inr h))) =
      let (e, bad) = later h in validate_later (inited d) rest e bad

  init_rules-Fails :
      (drafts : List Draft) → HasSpoiled drafts → Fails (init_rules urls sources toolbox w drafts)
  unfolding init_rules
  init_rules-Fails [] h = ground (arith, h)
  init_rules-Fails (d ∷ ds) h = elim (Option-cases (init_error d)) [
    | inr (e, bad) ↦ rw (bad, init_rules) tt
    | inl inits ↦ elim (Result-cases (init_rules urls sources toolbox w ds)) [
      | inl (e, bad) ↦ rw (inits, init_rules) (rw bad tt)
      | inr (rest, fine) ↦
          rw (inits, init_rules)
            (rw fine (
              validate-HasSpoiled d ds rest inits (λ later. rw fine at (init_rules-Fails ds later))
                h))
    ]
  ]

  accept_rules-Fails :
      (o : Listed) (result : Result (List Draft))
      → Fails result
      → (e : Error) × (accept_rules urls sources toolbox o result ≡ failed e)
  unfolding accept_rules
  accept_rules-Fails o (err e) h = (_, refl)
  accept_rules-Fails o (ok drafts) (e, bad) =
      (wrap (codes "invalid rule: " ++ o.url) e, rw (bad, accept_rules) refl)

  map-map :
      (f : Draft → Rule) (drafts : List Draft)
      → map f (map inited drafts) ≡ map (λ d. f (inited d)) drafts
  map-map f [] = refl
  map-map f (d ∷ ds) = ap (λ (rs : List Rule). f (inited d) ∷ rs) (map-map f ds)

  -- what a file that can be read and decoded comes to
  load_resources-read :
      (o : Listed) (drafts : List Draft)
      → IsRead o drafts
      → load_resources urls sources toolbox w o
        ≡ accept_rules urls sources toolbox o (init_rules urls sources toolbox w drafts)
  unfolding load_resources prepare_rules
  load_resources-read o drafts (content, first, others, opened, read, start) =
      rw (opened, load_resources)
        (rw (read, load_resources)
          (ap (λ ds. accept_rules urls sources toolbox o (init_rules urls sources toolbox w ds))
            (sym start)))

  accept_rules-fine :
      (o : Listed) (drafts : List Draft)
      → All IsFine drafts
      → accept_rules urls sources toolbox o (init_rules urls sources toolbox w drafts)
        ≡ rules_of (map (λ d. name_rule urls sources toolbox o (inited d)) drafts)
  unfolding accept_rules
  accept_rules-fine o drafts fine = rw (init_rules-fine drafts fine) (
      rw (validate-fine drafts fine, accept_rules)
        (ap rules_of (map-map (name_rule urls sources toolbox o) drafts)))

  -- One round of the loop, for a file that gives rules or fails.
  load_files-rules :
      (o : Listed) (objects : List Listed) (rules added : List Rule)
      → is_route o ≡ true
      → load_resources urls sources toolbox w o ≡ rules_of added
      → load_files urls sources toolbox w (o ∷ objects) rules
        ≡ load_files urls sources toolbox w objects (rules ++ added)
  unfolding load_files
  load_files-rules o objects rules added route loaded = rw route (rw loaded refl)

  load_files-failed :
      (o : Listed) (objects : List Listed) (rules : List Rule) (e : Error)
      → is_route o ≡ true
      → load_resources urls sources toolbox w o ≡ failed e
      → load_files urls sources toolbox w (o ∷ objects) rules
        ≡ load_files urls sources toolbox w objects (rules ++ [])
  unfolding load_files
  load_files-failed o objects rules e route bad = rw route (rw (bad, append-nil rules) refl)

  load_files-Adds :
      {o : Listed} {added : List Rule} (objects : List Listed) (rules : List Rule)
      → Adds o added
      → load_files urls sources toolbox w (o ∷ objects) rules
        ≡ load_files urls sources toolbox w objects (rules ++ added)
  unfolding load_files load_resources
  load_files-Adds objects rules (no_file o foreign) = rw (foreign, append-nil rules) refl
  load_files-Adds objects rules (unopened o e route bad) =
      load_files-failed o objects rules
        (errorf (codes "failed to open: " ++ o.url ++ codes ", " ++ e.message)) route
        (rw (bad, load_resources) refl)
  load_files-Adds objects rules (unread o e route bad) =
      load_files-failed o objects rules e route (rw (bad, load_resources) refl)
  load_files-Adds objects rules (undecoded o content e route opened bad) =
      load_files-failed o objects rules (wrap (codes "failed to load rules: " ++ o.url) e) route
        (rw (opened, load_resources) (rw (bad, load_resources) refl))
  load_files-Adds objects rules (spoiled o drafts route read bad) =
      let (e, fails) = accept_rules-Fails o _ (init_rules-Fails drafts bad) in
      load_files-failed o objects rules e route (load_resources-read o drafts read ∙ fails)
  load_files-Adds objects rules (sound o drafts route read fine) =
      load_files-rules o objects rules _ route
        (load_resources-read o drafts read ∙ accept_rules-fine o drafts fine)

  -- The rules in force are the declared ones and those that the elements of the folder add, in the
  -- order of the listing. A file adds all its rules, initialised and named after it, if it can be read
  -- and decoded, has at least one, and all of them are valid and can be initialised; a file that cannot
  -- be read or decoded, or has a rule that is invalid or cannot be initialised, adds none, and stops no
  -- other.
  pub load_files-AddsEach :
      {objects : List Listed} {added : List Rule} (rules : List Rule)
      → AddsEach objects added
      → load_files urls sources toolbox w objects rules ≡ some (rules ++ added)
  unfolding load_files
  load_files-AddsEach rules no_more = ap some (sym (append-nil rules))
  load_files-AddsEach rules (next {o} {added} {objects} {rest} adds more) =
      load_files-Adds objects rules adds
      ∙ load_files-AddsEach (rules ++ added) more
      ∙ ap some (append_assoc rules added rest)
