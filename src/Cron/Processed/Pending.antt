-- ===== src/Cron/Processed/Pending.antt =====
-- That a file which was announced is not found to be pending again: cron/meta/service.go.
use smirror.Prelude.{
  ℕ, ◌+◌, ◌≤◌, List, [], ◌∷◌, ◌++◌, true, false, Option, none, some, Bytes, Error, wrap_error, wrap,
  ok, All, select-dropped, ◌≡◌, inl, inr, refl, ap, ◌∙◌, sym, Result-cases, ok_injective, arith,
}
use smirror.Text.Search.{codes, same_self}
use smirror.Maps.{lookup}
use smirror.Reload.{Listed}
use smirror.Cron.Processed.{
  Processed, add, prune, process_map, is_pending, MetaStore, load_state, store_state,
  pending_resources, add_processed,
}
use smirror.Cron.Processed.Window.{IsSameFile, lookup-add, lookup-add_member}

-- What cron relies on: an upload that succeeds can be read back, and a decoder inverts the encoder.
pub record IsDurable {W : Type 0} (store : MetaStore W) (meta_url : Bytes) : Type 0 where
  pub saved :
      (content : Bytes) (w w' : W)
      → store.upload meta_url content w ≡ (none, w')
      → (store.exists w' meta_url ≡ true) × (store.open_url w' meta_url ≡ ok content)
  pub decoded : (state : List Processed) → store.decode (store.encode state).0 ≡ ok state

module _ {W : Type 0} where
  uploaded :
      (r : Option Error × W) (text : Bytes) (w' : W)
      → ◌≡◌ {A = Option Error × W} (wrap_error text r.0, r.1) (none, w')
      → r ≡ (none, w')
  uploaded (none, w) text w' h = λ i. (none, (h i).1)
  uploaded (some e, w) text w' h =
      let stop : some (wrap text e) ≡ none = λ i. (h i).0 in ground (arith, stop)

  no_failure :
      {A : Type 0} (e : Error) (w w' : W) → ◌≡◌ {A = Option Error × W} (some e, w) (none, w') → A
  no_failure e w w' h = let stop : some e ≡ none = λ i. (h i).0 in ground (arith, stop)

module _ {W : Type 0} (store : MetaStore W) (meta_url : Bytes) (limit : ℕ)
    (durable : IsDurable store meta_url) where
  load_state-store_state :
      (state : List Processed) (w w' : W)
      → store_state store meta_url limit state w ≡ (none, w')
      → load_state store meta_url limit w' ≡ ok state
  unfolding store_state load_state
  load_state-store_state state w w' h =
      let (here, content) = durable.saved (store.encode state).0 w w' (
        uploaded (store.upload meta_url (store.encode state).0 w)
          (codes "failed to upload meta: " ++ meta_url) w' h) in
      rw here (rw content (durable.decoded state))

  load_state-add_processed :
      (now : ℕ) (objects : List Listed) (w w' : W)
      → add_processed store meta_url limit now objects w ≡ (none, w')
      → (state : List Processed) × (load_state store meta_url limit w ≡ ok state)
        × (load_state store meta_url limit w' ≡ ok (prune now limit (add state objects)))
  unfolding add_processed
  load_state-add_processed now objects w w' h =
      elim (Result-cases (load_state store meta_url limit w)) [
        | inl (e, failed) ↦
            no_failure (wrap (codes "failed to load meta state") e) w w'
              (rw (failed, add_processed) at h)
        | inr (state, loaded) ↦ (
          state,
          loaded,
          load_state-store_state (prune now limit (add state objects)) w w'
              (rw (loaded, add_processed) at h),
        )
      ]

  -- The stored state has the file's URL with the file's time.
  abbrev pub Knows : Listed → W → Type 0
  Knows o w =
      (state : List Processed) × (load_state store meta_url limit w ≡ ok state)
      × (lookup o.url (process_map state) ≡ some o.mod_time)

  -- The steps between two polls: what else changes the storage leaves the state's file alone; the
  -- service adds files, among which no other version of `o` is, while the age of `o` is in the limit.
  pub data Steps (o : Listed) : W → W → Type 0 where
    end : (w : W) → Steps o w w
    elsewhere :
        {w w' u : W}
        → load_state store meta_url limit w' ≡ load_state store meta_url limit w
        → Steps o w' u
        → Steps o w u
    added :
        {w w' u : W} (now : ℕ) (objects : List Listed)
        → now ≤ o.mod_time + limit
        → All (IsSameFile o.url o.mod_time) objects
        → add_processed store meta_url limit now objects w ≡ (none, w')
        → Steps o w' u
        → Steps o w u

  Knows-added :
      (o : Listed) (now : ℕ) (objects : List Listed) (w w' : W)
      → now ≤ o.mod_time + limit
      → All (IsSameFile o.url o.mod_time) objects
      → add_processed store meta_url limit now objects w ≡ (none, w')
      → Knows o w
      → Knows o w'
  Knows-added o now objects w w' recent files done (state, loaded, known) =
      let (before, found, stored) = load_state-add_processed now objects w w' done in
      let equal : state ≡ before = ok_injective (sym loaded ∙ found) in
      (
        prune now limit (add before objects),
        stored,
        lookup-add o.url o.mod_time now limit before objects recent files
            (ap (λ (s : List Processed). lookup o.url (process_map s)) (sym equal) ∙ known),
      )

  Knows-Steps : (o : Listed) {w u : W} → Steps o w u → Knows o w → Knows o u
  Knows-Steps o (end w) known = known
  Knows-Steps o (elsewhere e steps) (state, loaded, known) =
      Knows-Steps o steps (state, e ∙ loaded, known)
  Knows-Steps o (added now objects recent files done steps) known =
      Knows-Steps o steps (Knows-added o now objects _ _ recent files done known)

  is_pending-known :
      (o : Listed) (entries : List (Bytes × ℕ))
      → lookup o.url entries ≡ some o.mod_time
      → is_pending entries o ≡ false
  unfolding is_pending
  is_pending-known o entries h = rw (h, is_pending) (ground arith)

  -- A known file is not among the pending ones.
  pub pending_resources-known :
      (o : Listed) (before behind : List Listed) (u : W)
      → Knows o u
      → pending_resources store meta_url limit (before ++ o ∷ behind) u
        ≡ pending_resources store meta_url limit (before ++ behind) u
  unfolding pending_resources
  pending_resources-known o before behind u (state, found, known) =
      rw (found, pending_resources)
        (ap ok (
          select-dropped (is_pending (process_map state)) o before behind
            (is_pending-known o (process_map state) known)))

  pub pending_resources-nil :
      (o : Listed) (u : W) → Knows o u → pending_resources store meta_url limit [] u ≡ ok []
  unfolding pending_resources
  pending_resources-nil o u (state, found, known) = rw (found, pending_resources) refl

  -- A file that was added is known after any further steps.
  pub Knows-added_member :
      (o : Listed) (now : ℕ) (front rest : List Listed) (w w' u : W)
      → now ≤ o.mod_time + limit
      → All (IsSameFile o.url o.mod_time) rest
      → add_processed store meta_url limit now (front ++ o ∷ rest) w ≡ (none, w')
      → Steps o w' u
      → Knows o u
  Knows-added_member o now front rest w w' u recent files done steps =
      let (state, loaded, stored) = load_state-add_processed now (front ++ o ∷ rest) w w' done in
      Knows-Steps o steps (
        prune now limit (add state (front ++ o ∷ rest)),
        stored,
        lookup-add_member o.url o.mod_time now limit state front o rest recent (same_self o.url)
            refl files,
      )

  -- A file that was added to the processed ones is not pending after any further steps: it makes no
  -- difference where it stands among the candidates. Its age is within the limit in each step, and no
  -- other version of it is added.
  pending_resources-added :
      (o : Listed) (now : ℕ) (front rest : List Listed) (w w' u : W)
      → now ≤ o.mod_time + limit
      → All (IsSameFile o.url o.mod_time) rest
      → add_processed store meta_url limit now (front ++ o ∷ rest) w ≡ (none, w')
      → Steps o w' u
      → (before behind : List Listed)
      → pending_resources store meta_url limit (before ++ o ∷ behind) u
        ≡ pending_resources store meta_url limit (before ++ behind) u
  pending_resources-added o now front rest w w' u recent files done steps before behind =
      pending_resources-known o before behind u
        (Knows-added_member o now front rest w w' u recent files done steps)
