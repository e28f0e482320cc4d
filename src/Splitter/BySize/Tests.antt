-- ===== src/Splitter/BySize/Tests.antt =====
-- The test and the count of the loop of `splitBySize`.
use smirror.Prelude.{ℕ, zero, suc, ◌+◌, Bool, ◌&&◌, ltb, leb, Bytes, length}

-- `sizeSoFar+(len(data)+1) >= maxSize && sizeSoFar > 0`
abbrev pub is_full : ℕ → ℕ → Bytes → Bool
is_full max size line = leb max (size + (length line + 1)) && ltb 0 size

-- the size once the line is written, and the line break in front of it unless the chunk is new
abbrev pub size_with : ℕ → ℕ → Bytes → ℕ
size_with zero size line = size + length line
size_with (suc counter) size line = size + length line + 1
