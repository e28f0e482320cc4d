-- ===== src/Cron/Polling/Finding.antt =====
-- What the walk over the folders of a rule's source finds: appendResources of cron/service.go.
use smirror.Prelude.{
  ℕ, zero, suc, ◌+◌, ◌≤◌, List, [], ◌∷◌, ◌++◌, Bool, true, false, Bytes, Result, ok, ◌≡◌, refl,
  arith,
}
use smirror.Config.Types.{Basic}
use smirror.Reload.{Listed}
use smirror.Cron.Polling.{Service, is_candidate, append_object, append_listed, append_resources}

module _ {W : Type 0} (service : Service W) (list : Bytes → Result (List Listed))
    (filter : Basic) where
  -- The files that a listing leads to, in order: its own files that the filter matches, and those that
  -- the listings of its folders lead to. A folder that stands first is the listed one itself.
  pub data Finds : Bool → List Listed → List Listed → Type 0 where
    at_end : {first : Bool} → Finds first [] []
    listed_itself :
        (o : Listed) {rest found : List Listed}
        → o.is_dir ≡ true
        → Finds false rest found
        → Finds true (o ∷ rest) found
    in_folder :
        (o : Listed) (objects inner : List Listed) {rest found : List Listed}
        → o.is_dir ≡ true
        → list o.url ≡ ok objects
        → Finds true objects inner
        → Finds false rest found
        → Finds false (o ∷ rest) (inner ++ found)
    matched :
        {first : Bool} (o : Listed) {rest found : List Listed}
        → o.is_dir ≡ false
        → is_candidate service filter o ≡ true
        → Finds false rest found
        → Finds first (o ∷ rest) (o ∷ found)
    unmatched :
        {first : Bool} (o : Listed) {rest found : List Listed}
        → o.is_dir ≡ false
        → is_candidate service filter o ≡ false
        → Finds false rest found
        → Finds first (o ∷ rest) found

  -- From some depth on, the loop over a listing gives these files.
  abbrev Gives : Bool → List Listed → List Listed → Type 0
  Gives first objects found =
      (n : ℕ) × ((m : ℕ)
        → n ≤ m
        → append_listed service (append_resources service m list filter) filter first objects
          ≡ ok found)

  append_resources-listed :
      (url : Bytes) (objects found : List Listed) (m : ℕ)
      → list url ≡ ok objects
      → append_listed service (append_resources service m list filter) filter true objects
        ≡ ok found
      → append_resources service (suc m) list filter url ≡ ok found
  unfolding append_resources
  append_resources-listed url objects found m listed h = rw (listed, append_resources) h

  in_folder-Gives :
      (o : Listed) (objects inner rest found : List Listed)
      → o.is_dir ≡ true
      → list o.url ≡ ok objects
      → Gives true objects inner
      → Gives false rest found
      → Gives false (o ∷ rest) (inner ++ found)
  unfolding append_listed append_object
  in_folder-Gives o objects inner rest found dir listed (n, below) (k, after) = (suc n + k, deeper)
    where
      deeper :
          (m : ℕ)
          → suc n + k ≤ m
          → append_listed service (append_resources service m list filter) filter false (o ∷ rest)
            ≡ ok (inner ++ found)
      deeper zero le = ground arith
      deeper (suc m) le =
          rw (dir, after (suc m) (omega (arith, le)))
            (rw (append_resources-listed o.url objects inner m listed (below m (omega (arith, le))))
              refl)

  Finds-Gives :
      {first : Bool} {objects found : List Listed}
      → Finds first objects found
      → Gives first objects found
  unfolding append_listed append_object is_candidate
  Finds-Gives at_end = (0, λ m le. refl)
  Finds-Gives (listed_itself o dir later) =
      let (n, gives) = Finds-Gives later in (n, λ m le. rw (dir, gives m le) refl)
  Finds-Gives (in_folder o objects inner dir listed below later) =
      in_folder-Gives o objects inner _ _ dir listed (Finds-Gives below) (Finds-Gives later)
  Finds-Gives (matched o file matches later) =
      let (n, gives) = Finds-Gives later in (n, λ m le. rw (file, matches, gives m le) refl)
  Finds-Gives (unmatched o file other later) =
      let (n, gives) = Finds-Gives later in (n, λ m le. rw (file, other, gives m le) refl)

  -- Where the listings below a URL can be made and lead to some files, every depth from some number on
  -- is enough: the walk gives just these files, in this order.
  pub append_resources-Finds :
      (url : Bytes) (objects found : List Listed)
      → list url ≡ ok objects
      → Finds true objects found
      → (n : ℕ) × ((m : ℕ) → n ≤ m → append_resources service m list filter url ≡ ok found)
  append_resources-Finds url objects found listed finds = (suc n, deeper)
    where
      n : ℕ
      n = (Finds-Gives finds).0

      deeper : (m : ℕ) → suc n ≤ m → append_resources service m list filter url ≡ ok found
      deeper zero le = ground arith
      deeper (suc m) le =
          append_resources-listed url objects found m listed
            ((Finds-Gives finds).1 m (omega (arith, le)))
