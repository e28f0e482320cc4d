-- ===== src/Config/Key/Equality.antt =====
-- `==` on keys, which are the keys of a Go map.
use smirror.Prelude.{ℤ, pos, negsuc, Bool, true, false, ◌==◌, ◌≡◌, ◌↔◌, arith}
use smirror.Text.Search.{same, same_iff}
use smirror.Config.Key.{Key, text, number, json}
use smirror.Splitter.ByPartition.Table.{Keys}

abbrev pub same_number : ℤ → ℤ → Bool
same_number (pos a) (pos b) = a == b
same_number (pos a) (negsuc b) = false
same_number (negsuc a) (pos b) = false
same_number (negsuc a) (negsuc b) = a == b

same_number_iff : (a b : ℤ) → (same_number a b ≡ true) ↔ (a ≡ b)
same_number_iff a b = ground arith

abbrev pub same_key : Key → Key → Bool
same_key (text a) (text b) = same a b
same_key (number a) (number b) = same_number a b
same_key (json a) (json b) = same a b
same_key _ _ = false

pub same_key_iff : (a b : Key) → (same_key a b ≡ true) ↔ (a ≡ b)
same_key_iff (text a) (text b) = ground (arith, same_iff a b)
same_key_iff (number a) (number b) = ground (arith, same_number_iff a b)
same_key_iff (json a) (json b) = ground (arith, same_iff a b)
same_key_iff _ _ = ground arith

instance abbrev pub key_keys : Keys Key
key_keys = record { same = same_key; same_iff = same_key_iff }
