-- ===== src/Cron/Processed/Window.antt =====
-- What the state of cron/meta remembers of a file while its age is within the limit.
use smirror.Prelude.{
  ℕ, ◌+◌, ◌≤◌, List, [], ◌∷◌, ◌++◌, true, false, some, ◌==◌, Bytes, map, select, All, ◌≡◌, ◌⊎◌, inl,
  inr, refl, ap, ◌∙◌, sym, Bool-cases, arith,
}
use smirror.Text.Search.{same, same→eq}
use smirror.Maps.{lookup, put, lookup-put, lookup-put_other}
use smirror.Reload.{Listed}
use smirror.Cron.Processed.{Processed, new_processed, add, is_kept, prune, put_all, process_map}

put_all-append :
    (xs ys : List Processed) (entries : List (Bytes × ℕ))
    → put_all (xs ++ ys) entries ≡ put_all ys (put_all xs entries)
unfolding put_all
put_all-append [] ys entries = refl
put_all-append (x ∷ xs) ys entries = put_all-append xs ys (put x.url x.modified entries)

lookup-put_same :
    (url key : Bytes) (time : ℕ) (entries : List (Bytes × ℕ))
    → same key url ≡ true
    → lookup url (put key time entries) ≡ some time
lookup-put_same url key time entries this =
    ap (λ (u : Bytes). lookup url (put u time entries)) (same→eq key url this)
    ∙ lookup-put url time entries

module _ (url : Bytes) (time : ℕ) where
  -- The entries of the URL have the time.
  abbrev pub IsUnchanged : Processed → Type 0
  IsUnchanged p = (same p.url url ≡ false) ⊎ (p.modified ≡ time)

  lookup-put_unchanged :
      (p : Processed) (entries : List (Bytes × ℕ))
      → IsUnchanged p
      → lookup url entries ≡ some time
      → lookup url (put p.url p.modified entries) ≡ some time
  lookup-put_unchanged p entries (inl other) h =
      lookup-put_other url p.url p.modified entries other ∙ h
  lookup-put_unchanged p entries (inr e) h = elim (Bool-cases (same p.url url)) [
    | inl this ↦ lookup-put_same url p.url p.modified entries this ∙ ap some e
    | inr other ↦ lookup-put_other url p.url p.modified entries other ∙ h
  ]

  lookup-put_all_unchanged :
      (ps : List Processed) (entries : List (Bytes × ℕ))
      → All IsUnchanged ps
      → lookup url entries ≡ some time
      → lookup url (put_all ps entries) ≡ some time
  unfolding put_all
  lookup-put_all_unchanged [] entries u h = h
  lookup-put_all_unchanged (p ∷ ps) entries (u, us) h =
      lookup-put_all_unchanged ps (put p.url p.modified entries) us
        (lookup-put_unchanged p entries u h)

  -- What a time that is kept has in the first map, it has in the second.
  abbrev Agrees : List (Bytes × ℕ) → List (Bytes × ℕ) → Type 0
  Agrees full kept = lookup url full ≡ some time → lookup url kept ≡ some time

  Agrees-put :
      (p : Processed) (full kept : List (Bytes × ℕ))
      → Agrees full kept
      → Agrees (put p.url p.modified full) (put p.url p.modified kept)
  Agrees-put p full kept h e = elim (Bool-cases (same p.url url)) [
    | inl this ↦
        lookup-put_same url p.url p.modified kept this
        ∙ (sym (lookup-put_same url p.url p.modified full this) ∙ e)
    | inr other ↦
        lookup-put_other url p.url p.modified kept other
        ∙ h (sym (lookup-put_other url p.url p.modified full other) ∙ e)
  ]

  module _ (now max_age : ℕ) (young : is_kept now max_age time ≡ true) where
    Agrees-put_dropped :
        (p : Processed) (full kept : List (Bytes × ℕ))
        → is_kept now max_age p.modified ≡ false
        → Agrees full kept
        → Agrees (put p.url p.modified full) kept
    Agrees-put_dropped p full kept old h e = elim (Bool-cases (same p.url url)) [
      | inl this ↦
          let same_time : some p.modified ≡ some time =
            sym (lookup-put_same url p.url p.modified full this) ∙ e in
          ground (arith, same_time, young, old)
      | inr other ↦ h (sym (lookup-put_other url p.url p.modified full other) ∙ e)
    ]

    Agrees-put_all :
        (ps : List Processed) (full kept : List (Bytes × ℕ))
        → Agrees full kept
        → Agrees (put_all ps full) (put_all (select (λ p. is_kept now max_age p.modified) ps) kept)
    unfolding put_all
    Agrees-put_all [] full kept h = h
    Agrees-put_all (p ∷ ps) full kept h = elim (Bool-cases (is_kept now max_age p.modified)) [
      | inl young_entry ↦
          rw (young_entry, put_all)
            (Agrees-put_all ps (put p.url p.modified full) (put p.url p.modified kept)
              (Agrees-put p full kept h))
      | inr old ↦
          rw (old, put_all)
            (Agrees-put_all ps (put p.url p.modified full) kept
              (Agrees-put_dropped p full kept old h))
    ]

  -- Pruning keeps a file's time, unless its age is above the limit.
  lookup-prune :
      (now max_age : ℕ) (state : List Processed)
      → now ≤ time + max_age
      → lookup url (process_map state) ≡ some time
      → lookup url (process_map (prune now max_age state)) ≡ some time
  unfolding process_map prune is_kept
  lookup-prune now max_age state recent h = elim (Bool-cases (max_age == 0)) [
    | inl unlimited ↦ rw unlimited h
    | inr limited ↦ rw limited (Agrees-put_all now max_age (ground arith) state [] [] (λ e. e) h)
  ]

  -- The files of the URL have the time.
  abbrev pub IsSameFile : Listed → Type 0
  IsSameFile o = (same o.url url ≡ false) ⊎ (o.mod_time ≡ time)

  IsUnchanged-map :
      (objects : List Listed)
      → All IsSameFile objects
      → All IsUnchanged (map (λ o. new_processed o.url o.mod_time) objects)
  unfolding new_processed
  IsUnchanged-map [] h = tt
  IsUnchanged-map (o ∷ objects) (same_file, h) = (same_file, IsUnchanged-map objects h)

  -- A later step keeps what is known of the file.
  pub lookup-add :
      (now max_age : ℕ) (state : List Processed) (objects : List Listed)
      → now ≤ time + max_age
      → All IsSameFile objects
      → lookup url (process_map state) ≡ some time
      → lookup url (process_map (prune now max_age (add state objects))) ≡ some time
  unfolding process_map add
  lookup-add now max_age state objects recent files h =
      lookup-prune now max_age (add state objects) recent (
        ap (lookup url) (put_all-append state _ [])
        ∙ lookup-put_all_unchanged _ (put_all state []) (IsUnchanged-map objects files) h)

  put_all-member :
      (objects : List Listed) (o : Listed) (rest : List Listed) (entries : List (Bytes × ℕ))
      → same o.url url ≡ true
      → o.mod_time ≡ time
      → All IsSameFile rest
      → lookup url
          (put_all (map (λ o. new_processed o.url o.mod_time) (objects ++ o ∷ rest)) entries)
        ≡ some time
  unfolding put_all new_processed
  put_all-member [] o rest entries this same_time files =
      lookup-put_all_unchanged _ _ (IsUnchanged-map rest files)
        (lookup-put_same url o.url o.mod_time entries this ∙ ap some same_time)
  put_all-member (p ∷ objects) o rest entries this same_time files =
      put_all-member objects o rest _ this same_time files

  -- A step knows each of its files afterwards.
  pub lookup-add_member :
      (now max_age : ℕ) (state : List Processed) (objects : List Listed) (o : Listed)
      (rest : List Listed)
      → now ≤ time + max_age
      → same o.url url ≡ true
      → o.mod_time ≡ time
      → All IsSameFile rest
      → lookup url (process_map (prune now max_age (add state (objects ++ o ∷ rest)))) ≡ some time
  unfolding process_map add
  lookup-add_member now max_age state objects o rest recent this same_time files =
      lookup-prune now max_age (add state (objects ++ o ∷ rest)) recent (
        ap (lookup url) (put_all-append state _ [])
        ∙ put_all-member objects o rest (put_all state []) this same_time files)
