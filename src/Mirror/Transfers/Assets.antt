-- ===== src/Mirror/Transfers/Assets.antt =====
-- What the transfer of an asset, as a whole, leaves alone in the response.
use smirror.Prelude.{
  List, [], ◌∷◌, ◌++◌, Option, none, some, Bytes, Error, ◌≡◌, refl, Bool-cases, inl, inr,
}
use smirror.Text.Search.{codes}
use smirror.Text.Paths.{join_path}
use smirror.Config.Types.{Rule}
use smirror.Config.Key.{Key}
use smirror.Config.Compression.{shall_archive_walk, archive_walk_url}
use smirror.Config.Expansion.{clone_with_url}
use smirror.Splitter.ByPartition.Table.{Buffer}
use smirror.Mirror.State.{Status, Entry, Environment, Run}
use smirror.Mirror.Transfers.{Ticket, walk, mirror_asset, stream_options}
use smirror.Mirror.Transfers.Outcomes.{
  outcome, Kept, Kept-outcome, continue-Kept, lift-Kept, wrapped-Kept, transfer_any-Kept,
}

module _ {W : Type 0} (env : Environment W) (o : Bytes × Status)
    (order : List (Buffer Key Ticket) → List (Buffer Key Ticket)) where
  walk-Kept :
      (r : Rule) (url : Bytes) (failure : Option Error) (entries : List Entry) (s : Run W)
      → outcome s ≡ o
      → Kept o (walk env order r url failure entries s)
  unfolding walk
  walk-Kept r url none [] s h = h
  walk-Kept r url (some e) [] s h = h
  walk-Kept r url failure (e ∷ entries) s h = elim (Bool-cases e.is_dir) [
    | inl dir ↦ rw (dir, walk) (walk-Kept r url failure entries s h)
    | inr file ↦
        rw (file, walk)
          (continue-Kept o _ _
            (transfer_any-Kept env o order r (env.urls.join url (join_path e.parent e.name))
              e.stream s h)
            (λ _ s1 h1. walk-Kept r url failure entries s1 h1))
  ]

  mirror_asset-Kept :
      (r : Rule) (url : Bytes) (s : Run W) → outcome s ≡ o → Kept o (mirror_asset env order r url s)
  unfolding mirror_asset
  mirror_asset-Kept r url s h =
      continue-Kept o _ _
        (wrapped-Kept o
          (codes "failed to get storage option for " ++ env.codecs.format_resource r.source) _
          (lift-Kept o (env.services.storage_options s.world (clone_with_url r.source url)) s h))
        (λ stored s1 h1. elim (Bool-cases (shall_archive_walk r url)) [
          | inl archive ↦ rw archive (
              walk-Kept r url
                (env.services.entries s1.world (archive_walk_url url)
                  (stored ++ stream_options env order s.response.stream_option)).1
                (env.services.entries s1.world (archive_walk_url url)
                  (stored ++ stream_options env order s.response.stream_option)).0
                s1 h1)
          | inr file ↦ rw file (
              continue-Kept o _ _
                (wrapped-Kept o (codes "failed to download source: " ++ url) _ (
                  lift-Kept o
                    (env.services.open_url s.world url
                      (stored ++ stream_options env order s.response.stream_option))
                    s1 h1))
                (λ stream s2 h2. transfer_any-Kept env o order r url stream s2 h2))
        ])

-- The transfer of an asset, whole, as an archive or in chunks, and whatever its outcome, leaves the
-- error and the status of the response to the caller.
pub mirror_asset-outcome :
    {W : Type 0} (env : Environment W) (order : List (Buffer Key Ticket) → List (Buffer Key Ticket))
    (r : Rule) (url : Bytes) (s : Run W)
    → outcome (mirror_asset env order r url s).1 ≡ outcome s
mirror_asset-outcome env order r url s =
    Kept-outcome (outcome s) (mirror_asset env order r url s)
      (mirror_asset-Kept env (outcome s) order r url s refl)
