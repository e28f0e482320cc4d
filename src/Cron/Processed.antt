-- ===== src/Cron/Processed.antt =====
-- cron/meta: the files that were announced already, kept in a file of their own. A time is a number
-- of nanoseconds.
pub mod Window
pub mod Pending
use smirror.Prelude.{
  ℕ, ◌-◌, List, [], ◌∷◌, ◌++◌, Bool, true, false, not, Option, none, some, ltb, ◌==◌, Bytes, Error,
  errorf, wrap, wrap_error, Result, ok, err, map, select, if◌then◌else◌,
}
use smirror.Text.Search.{codes}
use smirror.Maps.{lookup, put}
use smirror.Reload.{Listed}

-- cron/meta/processed.go
pub record Processed : Type 0 where
  pub url : Bytes
  pub modified : ℕ

unfoldable pub new_processed : Bytes → ℕ → Processed
new_processed url modified = record { url = url; modified = modified }

-- `State.Add`
unfoldable pub add : List Processed → List Listed → List Processed
add state objects = state ++ map (λ o. new_processed o.url o.mod_time) objects

-- the age is not above the limit
unfoldable pub is_kept : ℕ → ℕ → ℕ → Bool
is_kept now max_age modified = not (ltb max_age (now - modified))

-- `State.Prune`, which prunes nothing without a limit
unfoldable pub prune : ℕ → ℕ → List Processed → List Processed
prune now max_age state =
    if max_age == 0 then state else select (λ p. is_kept now max_age p.modified) state

-- the loop of `ProcessMap`
unfoldable pub put_all : List Processed → List (Bytes × ℕ) → List (Bytes × ℕ)
put_all [] entries = entries
put_all (p ∷ ps) entries = put_all ps (put p.url p.modified entries)

unfoldable pub process_map : List Processed → List (Bytes × ℕ)
process_map state = put_all state []

-- The storage of the state's file, and the encoder.
pub record MetaStore (W : Type 0) : Type 0 where
  -- `Exists`, whose error is ignored
  pub exists : W → Bytes → Bool
  pub open_url : W → Bytes → Result Bytes
  pub decode : Bytes → Result (List Processed)
  -- the text, and the error that is overwritten by that of the upload
  pub encode : List Processed → Bytes × Option Error
  pub upload : Bytes → Bytes → W → Option Error × W

-- the test of a candidate
unfoldable pub is_pending : List (Bytes × ℕ) → Listed → Bool
is_pending processed o = elim (lookup o.url processed) [
  | none ↦ true
  | some modified ↦ not (modified == o.mod_time)
]

module _ {W : Type 0} (store : MetaStore W) (meta_url : Bytes) (prune_duration : ℕ) where
  unfoldable pub load_state : W → Result (List Processed)
  load_state w =
      if store.exists w meta_url
      then (elim (store.open_url w meta_url) [
        | err e ↦ err (wrap (codes "failed to load meta file: " ++ meta_url) e)
        | ok content ↦ store.decode content
      ])
      else ok []

  unfoldable pub store_state : List Processed → W → Option Error × W
  store_state state w =
      let (e, w') = store.upload meta_url (store.encode state).0 w in
      (wrap_error (codes "failed to upload meta: " ++ meta_url) e, w')

  unfoldable pub pending_resources : List Listed → W → Result (List Listed)
  pending_resources candidates w = elim (load_state w) [
    | err e ↦ err (wrap (codes "failed to load meta state") e)
    | ok state ↦ ok (select (is_pending (process_map state)) candidates)
  ]

  unfoldable pub add_processed : ℕ → List Listed → W → Option Error × W
  add_processed now processed w = elim (load_state w) [
    | err e ↦ (some (wrap (codes "failed to load meta state") e), w)
    | ok state ↦ store_state (prune now prune_duration (add state processed)) w
  ]
