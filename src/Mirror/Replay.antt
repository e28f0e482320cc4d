-- ===== src/Mirror/Replay.antt =====
-- `replay` of service.go and the replayer of base/mover.go: the files beside a done marker are moved
-- away and back, so that the storage announces them again. Five routines take the scheduled URLs;
-- their two moves are one step here, and the steps follow one another in a given order.
use smirror.Prelude.{
  List, [], ◌∷◌, ◌++◌, Bool, not, ◌&&◌, ◌||◌, Option, none, some, Bytes, Error, ok, err, is_empty,
  select, map,
}
use smirror.Text.Search.{codes, same, replace}
use smirror.Mirror.State.{Object, Environment}

abbrev pub replay_path_element : Bytes
replay_path_element = codes "/_replay_/"

-- the first of two errors
abbrev pub first_error : Option Error → Option Error → Option Error
first_error none later = later
first_error (some e) later = some e

module _ {W : Type 0} (env : Environment W) where
  unfoldable pub replay_url : Bytes → Bytes
  replay_url url =
      let bucket = env.urls.host url in replace url bucket (bucket ++ replay_path_element) 1

  -- the second move, if the first one succeeded
  unfoldable pub move_back : Bytes → Option Error × W → Option Error × W
  move_back url (none, w) = env.services.move (replay_url url) url w
  move_back url (some e, w) = (some e, w)

  -- `Replayer.replay`
  unfoldable pub replay_one : Bytes → W → Option Error × W
  replay_one url w = move_back url (env.services.move url (replay_url url) w)

  -- The routines: an error is kept if it is the first one, and does not end the work.
  unfoldable pub replay_all : List Bytes → W → Option Error × W
  replay_all [] w = (none, w)
  replay_all (url ∷ urls) w =
      let (e, w') = replay_one url w in
      let (later, end) = replay_all urls w' in (first_error e later, end)

  -- the test in front of `Schedule`, and its own
  abbrev pub is_replayed : Bytes → Object → Bool
  is_replayed done_marker o = not (o.is_dir || same o.name done_marker) && not (is_empty o.url)

  -- `service.replay`
  unfoldable pub replay : Bytes → Bytes → W → Option Error × W
  unfolding replay_all
  replay parent_url done_marker w = elim (env.services.list w parent_url) [
    | err e ↦ (some e, w)
    | ok objects ↦
        replay_all
          (env.services.replay_order (map (λ o. o.url) (select (is_replayed done_marker) objects)))
          w
  ]
