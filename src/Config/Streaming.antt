-- ===== src/Config/Streaming.antt =====
-- config/streaming.go and config/overflow.go: sizes in megabytes.
use smirror.Prelude.{ℕ, ◌%◌, ◌^◌, ◌*◌, ◌<◌, ◌==◌, if◌then◌else◌, Bytes, is_empty, ◌≡◌, refl, arith}
use smirror.Config.Types.{Streaming, Overflow}

abbrev pub mega_bytes : ℕ
mega_bytes = 1024 * 1024

abbrev pub default_stream_threshold : ℕ
default_stream_threshold = 512

abbrev pub default_part_size : ℕ
default_part_size = 64

-- `if x == 0 { x = d }`
unfoldable pub or_default : ℕ → ℕ → ℕ
or_default x d = if x == 0 then d else x

-- a number of megabytes in bytes: an int wraps around, and stands as its bit pattern
unfoldable pub in_bytes : ℕ → ℕ
in_bytes mb = mb * mega_bytes % 2 ^ 64

unfoldable pub init : Streaming → Streaming
init c =
    let threshold_mb : ℕ = or_default c.threshold_mb default_stream_threshold in
    let part_size_mb : ℕ = or_default c.part_size_mb default_part_size in
    let skip_mb : ℕ = or_default c.checksum_skip_threshold_mb default_stream_threshold in
    record {
      threshold_mb = threshold_mb;
      threshold = or_default c.threshold (in_bytes threshold_mb);
      part_size = or_default c.part_size (in_bytes part_size_mb);
      part_size_mb = part_size_mb;
      checksum_skip_threshold_mb = skip_mb;
      checksum_skip_threshold = or_default c.checksum_skip_threshold (in_bytes skip_mb);
    }

or_default_zero : (d : ℕ) → or_default 0 d ≡ d
unfolding or_default
or_default_zero d = refl

or_default_pos : (x d : ℕ) → 0 < d → 0 < or_default x d
unfolding or_default
or_default_pos x d h = ground arith

or_default_lt : (x d bound : ℕ) → x < bound → d < bound → or_default x d < bound
unfolding or_default
or_default_lt x d bound h k = ground arith

or_default_twice : (x d : ℕ) → or_default (or_default x d) d ≡ or_default x d
unfolding or_default
or_default_twice x d = ground arith

-- A second round, whose default is computed from the first one's result.
or_default_again :
    (x m d : ℕ)
    → or_default
        (or_default x (in_bytes (or_default m d)))
        (in_bytes (or_default (or_default m d) d))
      ≡ or_default x (in_bytes (or_default m d))
or_default_again x m d = rw (or_default_twice m d) (or_default_twice x (in_bytes (or_default m d)))

in_bytes_exact : (mb : ℕ) → mb < 2 ^ 43 → in_bytes mb ≡ mb * mega_bytes
unfolding in_bytes
in_bytes_exact mb h = omega (arith, h)

-- `Overflow.Size`
unfoldable pub overflow_size : Overflow → ℕ
overflow_size o = o.size_mb * 1024 * 1024

-- `Overflow.MessageDest`
unfoldable pub message_dest : Overflow → Bytes
message_dest o = if is_empty o.topic then o.queue else o.topic

-- A struct that was decoded from a configuration has no computed size yet.
abbrev pub IsDecoded : Streaming → Type 0
IsDecoded c = (c.threshold ≡ 0) × (c.part_size ≡ 0) × (c.checksum_skip_threshold ≡ 0)

-- The sizes in megabytes are such that the sizes in bytes are below 2^63.
abbrev pub IsModest : Streaming → Type 0
IsModest c =
    (c.threshold_mb < 2 ^ 43) × (c.part_size_mb < 2 ^ 43) × (c.checksum_skip_threshold_mb < 2 ^ 43)

scaled :
    (x mb d : ℕ)
    → x ≡ 0
    → mb < 2 ^ 43
    → 0 < d
    → d < 2 ^ 43
    → (or_default x (in_bytes (or_default mb d)) ≡ or_default mb d * mega_bytes)
      × (0 < or_default x (in_bytes (or_default mb d)))
scaled x mb d none h pos small =
    let exact : or_default x (in_bytes (or_default mb d)) ≡ or_default mb d * mega_bytes =
      rw (none, or_default_zero)
        (in_bytes_exact (or_default mb d) (or_default_lt mb d (2 ^ 43) h small)) in
    (exact, rw exact (omega (arith, or_default_pos mb d pos)))

-- After `Init` of a decoded configuration with non-negative sizes below 2^43 megabytes, every size in
-- bytes is its size in megabytes times 2^20, and none is 0; a second `Init` changes nothing.
pub init_sizes :
    (c : Streaming)
    → IsDecoded c
    → IsModest c
    → ((init c).threshold ≡ (init c).threshold_mb * mega_bytes)
      × ((init c).part_size ≡ (init c).part_size_mb * mega_bytes)
      × ((init c).checksum_skip_threshold ≡ (init c).checksum_skip_threshold_mb * mega_bytes)
      × (0 < (init c).threshold)
      × (0 < (init c).part_size)
      × (0 < (init c).checksum_skip_threshold)
      × (init (init c) ≡ init c)
unfolding init
init_sizes c (t0, p0, k0) (t, p, k) =
    let (threshold, above) =
      scaled c.threshold c.threshold_mb default_stream_threshold t0 t (omega arith) (omega arith) in
    let (part, above_part) =
      scaled c.part_size c.part_size_mb default_part_size p0 p (omega arith) (omega arith) in
    let (skip, above_skip) =
      scaled c.checksum_skip_threshold c.checksum_skip_threshold_mb default_stream_threshold k0 k
        (omega arith) (omega arith) in
    (threshold, part, skip, above, above_part, above_skip, init_twice)
  where
    init_twice : init (init c) ≡ init c
    init_twice = λ i. record {
      threshold_mb = or_default_twice c.threshold_mb default_stream_threshold i;
      threshold = or_default_again c.threshold c.threshold_mb default_stream_threshold i;
      part_size = or_default_again c.part_size c.part_size_mb default_part_size i;
      part_size_mb = or_default_twice c.part_size_mb default_part_size i;
      checksum_skip_threshold_mb =
          or_default_twice c.checksum_skip_threshold_mb default_stream_threshold i;
      checksum_skip_threshold =
          or_default_again c.checksum_skip_threshold c.checksum_skip_threshold_mb
            default_stream_threshold i;
    }
