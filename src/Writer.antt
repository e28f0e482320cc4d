-- ===== src/Writer.antt =====
-- writer.go: the in-memory writer of a chunk, which hands what was written to a listener when it is
-- closed. The buffer never refuses a write.
use smirror.Prelude.{
  Bool, true, false, ◌&&◌, Option, none, some, [], ◌++◌, ◌≡◌, ap, append_assoc, Bytes, Error,
}
use smirror.Text.Search.{codes, same}
use smirror.Config.Types.{Compression}

-- `ticket` is what the listener's closure holds: the chunk's number, name and partition.
-- `written` is the text before compression, `reader` what the listener may read.
pub record Writer (L : Type 0) : Type 0 where
  pub ticket : L
  pub gzip_writer : Bool
  pub written : Bytes
  pub reader : Option Bytes

-- the test in front of `gzip.NewWriter`
unfoldable pub compresses : Option Compression → Bool
compresses none = false
compresses (some c) = c.uncompress && same c.codec (codes "gzip")

module _ {L : Type 0} where
  unfoldable pub new_writer : Option Compression → L → Writer L
  unfolding compresses
  new_writer compression ticket = record {
    ticket = ticket;
    gzip_writer = compresses compression;
    written = [];
    reader = none;
  }

  unfoldable pub write : Bytes → Writer L → Writer L
  write text w = record w { written = w.written ++ text }

  -- Two writes are one write of both texts.
  pub write-write : (a b : Bytes) (w : Writer L) → write b (write a w) ≡ write (a ++ b) w
  unfolding write
  write-write a b w = ap (λ (t : Bytes). record w { written = t }) (append_assoc w.written a b)

module _ {L S : Type 0} (gzip : Bytes → Bytes) (listener : Writer L → S → Option Error × S) where
  -- `Close`: the listener sees the whole buffer.
  unfoldable pub close : Writer L → S → Option Error × S
  close w s =
      listener
        (record w {
          reader = some (elim w.gzip_writer [ true ↦ gzip w.written | false ↦ w.written ]);
        })
        s
