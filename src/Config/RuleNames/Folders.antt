-- ===== src/Config/RuleNames/Folders.antt =====
-- Which folders `Rule.Name` keeps.
use smirror.Prelude.{
  ◌-◌, pos, List, true, none, some, Bytes, leb, length, drop, ◌≡◌, refl, ap, ◌∙◌, arith,
}
use smirror.Text.Search.{codes}
use smirror.Text.Parts.{trim, split, join}
use smirror.Text.Parts.RoundTrip.{join-split}
use smirror.Config.RuleNames.{kept_folder}

drop_none :
    (fragments : List Bytes) → drop (length fragments - length fragments) fragments ≡ fragments
drop_none fragments = let e : length fragments - length fragments ≡ 0 = omega arith in rw e refl

kept_folder_absent : (parent : Bytes) → kept_folder none parent ≡ trim parent (codes "/")
unfolding kept_folder
kept_folder_absent parent =
    ap (λ (f : List Bytes). join f (codes "/"))
      (drop_none (split (trim parent (codes "/")) (codes "/")))
    ∙ join-split b'/' (trim parent (codes "/"))

kept_folder_full :
    (parent : Bytes)
    → kept_folder (some (pos (length (split (trim parent (codes "/")) (codes "/"))))) parent
      ≡ trim parent (codes "/")
unfolding kept_folder
kept_folder_full parent =
    let fits : leb (length (split (trim parent (codes "/")) (codes "/")))
          (length (split (trim parent (codes "/")) (codes "/")))
        ≡ true =
      ground arith in
    rw fits (kept_folder_absent parent)

-- A rule without a preserved depth keeps all folders of the source, without the slashes at its ends,
-- and so does a rule whose depth is the number of these folders.
pub kept_folder-trim :
    (parent : Bytes)
    → (kept_folder none parent ≡ trim parent (codes "/"))
      × (kept_folder (some (pos (length (split (trim parent (codes "/")) (codes "/"))))) parent
          ≡ trim parent (codes "/"))
kept_folder-trim parent = (kept_folder_absent parent, kept_folder_full parent)
