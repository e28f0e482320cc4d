-- ===== src/Mirror/Messages.antt =====
-- helper.go: what an error's text says about it.
use smirror.Prelude.{[], ◌∷◌, ◌++◌, Bool, true, false, ◌||◌, Bytes, Error, wrap, ◌≡◌, refl, arith}
use smirror.Text.Search.{codes, contains, has_prefix, contains-append_left}

unfoldable pub is_not_found : Bytes → Bool
is_not_found [] = false
is_not_found (c ∷ message) =
    contains (c ∷ message) (codes "not found") || contains (c ∷ message) (codes "404")

unfoldable pub is_retry_error : Bytes → Bool
is_retry_error [] = false
is_retry_error (c ∷ message) =
    contains (c ∷ message) (codes "backendError")
    || contains (c ∷ message) (codes "connection reset by peer")

-- The empty text says neither.
is_not_found_lem :
    (m : Bytes) → is_not_found m ≡ (contains m (codes "not found") || contains m (codes "404"))
unfolding is_not_found contains has_prefix
is_not_found_lem [] = refl
is_not_found_lem (c ∷ m) = refl

is_retry_error_lem :
    (m : Bytes)
    → is_retry_error m
      ≡ (contains m (codes "backendError") || contains m (codes "connection reset by peer"))
unfolding is_retry_error contains has_prefix
is_retry_error_lem [] = refl
is_retry_error_lem (c ∷ m) = refl

contains_wrapped :
    (text m part : Bytes)
    → contains m part ≡ true
    → contains (text ++ (b':' ∷ b' ' ∷ m)) part ≡ true
contains_wrapped text m part h =
    contains-append_left text (b':' ∷ b' ' ∷ m) part
      (contains-append_left (b':' ∷ b' ' ∷ []) m part h)

or_map :
    (a b c d : Bool)
    → (a ≡ true → c ≡ true)
    → (b ≡ true → d ≡ true)
    → (a || b) ≡ true
    → (c || d) ≡ true
or_map a b c d f g h = ground arith

-- An error that is taken for a missing object is still taken for one when `errors.Wrapf` has put any
-- text in front of it.
wrap-is_not_found :
    (text : Bytes) (e : Error)
    → is_not_found e.message ≡ true
    → is_not_found (wrap text e).message ≡ true
wrap-is_not_found text e h = rw is_not_found_lem (
    or_map _ _ _ _ (contains_wrapped text e.message (codes "not found"))
      (contains_wrapped text e.message (codes "404")) (rw is_not_found_lem at h))

-- An error that is taken for one to retry is still taken for one when `errors.Wrapf` has put any text
-- in front of it.
wrap-is_retry_error :
    (text : Bytes) (e : Error)
    → is_retry_error e.message ≡ true
    → is_retry_error (wrap text e).message ≡ true
wrap-is_retry_error text e h = rw is_retry_error_lem (
    or_map _ _ _ _ (contains_wrapped text e.message (codes "backendError"))
      (contains_wrapped text e.message (codes "connection reset by peer"))
      (rw is_retry_error_lem at h))
