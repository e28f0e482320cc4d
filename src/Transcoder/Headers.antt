-- ===== src/Transcoder/Headers.antt =====
-- What becomes of the rows of a CSV text with a header whose fields are declared.
use smirror.Prelude.{ℕ, zero, List, [], ◌∷◌, Bytes, ok, ◌≡◌}
use smirror.Config.Types.{Transcoding}
use smirror.Transcoder.{Formats}
use smirror.Transcoder.Rows.{IsTabular, IsRow}

-- the lines of pairs
abbrev pub flat : List (Bytes × Bytes) → List Bytes
flat [] = []
flat ((first, second) ∷ pairs) = first ∷ second ∷ flat pairs

module _ {V D A : Type 0} (formats : Formats V D A) (transcoding : Transcoding) (split_counter : ℕ)
    (tabular : IsTabular transcoding) where
  -- Of each pair, the first line can be read, and the second one has the text.
  abbrev pub Skips : List (Bytes × Bytes) → List Bytes → Type 0
  Skips [] texts = texts ≡ []
  Skips (pair ∷ pairs) [] = zero ≡ 1
  Skips ((first, second) ∷ pairs) (t ∷ texts) =
      ((names : List Bytes) × (formats.read_csv transcoding.source first ≡ ok names))
      × IsRow formats transcoding split_counter tabular second t
      × Skips pairs texts
