-- ===== src/Reload.antt =====
-- base/meta.go: whether the files of a folder have changed since they were last read.
pub mod Changes
pub mod Samples
use smirror.Prelude.{
  ℕ, ◌+◌, List, [], ◌∷◌, ◌++◌, Bool, true, false, not, ◌&&◌, ◌||◌, Option, none, some, ltb, ◌==◌,
  if◌then◌else◌, Bytes, Error, wrap, Result, ok, err, is_empty, length, any,
}
use smirror.Text.Search.{codes, same}
use smirror.Text.Paths.{ext}
use smirror.Maps.{lookup, put}

-- `storage.Object`, as a listing has it
pub record Listed : Type 0 where
  pub url : Bytes
  pub name : Bytes
  pub is_dir : Bool
  pub mod_time : ℕ

-- The map is a list of pairs; a zero time is `none`.
pub record Meta : Type 0 where
  pub base_url : Bytes
  pub routes : List (Bytes × ℕ)
  pub check_frequency : ℕ
  pub next_check : Option ℕ

abbrev pub minute : ℕ
minute = 60000000000

unfoldable pub new_meta : Bytes → ℕ → Meta
new_meta base_url frequency = record {
  base_url = base_url;
  routes = [];
  check_frequency = if frequency == 0 then minute else frequency;
  next_check = none;
}

unfoldable pub is_check_due : ℕ → Meta → Bool × Meta
is_check_due now m =
    if (elim m.next_check [ none ↦ true | some t ↦ ltb t now ])
    then (true, record m { next_check = some (now + m.check_frequency) })
    else (false, m)

-- the test of a listed file, which is no directory
unfoldable pub is_changed : List (Bytes × ℕ) → Listed → Bool
is_changed routes o =
    not o.is_dir
    && elim (lookup o.url routes) [ none ↦ true | some time ↦ not (time == o.mod_time) ]

unfoldable pub has_changes : Meta → List Listed → Bool
has_changes m objects = not (length objects == length m.routes) || any (is_changed m.routes) objects

-- a file of rules
unfoldable pub is_route : Listed → Bool
is_route o =
    not o.is_dir && (same (ext o.name) (codes ".json") || same (ext o.name) (codes ".yaml"))

-- the loop that fills the map
unfoldable pub record_routes : List Listed → List (Bytes × ℕ) → List (Bytes × ℕ)
record_routes [] routes = routes
record_routes (o ∷ objects) routes =
    if is_route o
    then record_routes objects (put o.url o.mod_time routes)
    else record_routes objects routes

unfoldable pub note_listing : Meta → Result (List Listed) → Result Bool × Meta
note_listing m (err e) = (err (wrap (codes "failed to load rules " ++ m.base_url) e), m)
note_listing m (ok objects) =
    if has_changes m objects
    then (ok true, record m { routes = record_routes objects [] })
    else (ok false, m)

-- `HasChanged` at a time, with what `List` answers then
unfoldable pub has_changed : ℕ → Result (List Listed) → Meta → Result Bool × Meta
has_changed now listing m =
    if is_empty m.base_url
    then (ok false, m)
    else let (due, m') = is_check_due now m in
      if due then note_listing m' listing else (ok false, m')
