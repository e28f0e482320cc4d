-- ===== src/Splitter/ByPartition/FlushError.antt =====
-- What `splitWithPartition` does when a chunk that is full cannot be closed.
use smirror.Prelude.{List, ◌∷◌, Option, none, some, true, ◌≡◌, Bytes, Error, Result, ok, err}
use smirror.Writer.{Writer}
use smirror.Config.Types.{Split}
use smirror.Splitter.Scan.{Token, token}
use smirror.Splitter.ByPartition.{
  returned, needs_flush, buffer_for, flush_open, renew, put_line, place, fill,
}
use smirror.Splitter.ByPartition.Table.{Keys, Buffer, find}

module _ {K L S : Type 0} ⦃keys : Keys K⦄ (provider : K → S → Writer L × S)
    (close : Writer L → S → Option Error × S) where
  buffer_for_found :
      (k : K) (table : List (Buffer K L)) (s : S) (b : Buffer K L)
      → find k table ≡ some b
      → buffer_for provider close k table s ≡ (b, s)
  unfolding buffer_for
  buffer_for_found k table s b found = rw (found, buffer_for)

  flush_open-fails :
      (b : Buffer K L) (s : S) (e : Error)
      → (close b.writer s).0 ≡ some e
      → flush_open provider close b s ≡ (err e, (close b.writer s).1)
  unfolding flush_open
  flush_open-fails b s e h = rw (h, flush_open)

  -- When the chunk of a line's key is full and its writer's `Close` fails, the loop returns no error
  -- and reads no further line, whatever lines follow: the error is lost, and so is the rest of the
  -- text.
  pub fill-loses_error :
      (split : Split) (key_of : Bytes → Result K) (line : Bytes) (rest : List Token)
      (table : List (Buffer K L)) (s : S) (k : K) (b : Buffer K L) (e : Error)
      → key_of line ≡ ok k
      → find k table ≡ some b
      → needs_flush split b line ≡ true
      → (close b.writer s).0 ≡ some e
      → fill provider close split key_of (token line ∷ rest) table s
        ≡ returned none (close b.writer s).1
  unfolding fill place put_line renew
  fill-loses_error split key_of line rest table s k b e has_key found full fails =
      let placed : place provider close split k line table s ≡ returned none (close b.writer s).1 =
        rw (buffer_for_found k table s b found, place)
          (rw (full, renew) (rw (flush_open-fails b s e fails))) in
      rw (has_key, fill) (rw (placed, fill))
