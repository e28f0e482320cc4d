-- ===== src/Reload/Changes.antt =====
-- When base/meta.go reports a change.
use smirror.Prelude.{
  ℕ, ◌+◌, ◌≤◌, ◌<◌, List, [], ◌∷◌, true, false, not, none, some, Bytes, length, any, All,
  Bool-cases, inl, inr, ◌≡◌, refl, ap, ◌∙◌, arith,
}
use smirror.Text.Search.{same, same_iff}
use smirror.Maps.{lookup, put, length-put, lookup-put, lookup-put_other, length-put_new}
use smirror.Reload.{Listed, Meta, is_changed, has_changes, is_route, record_routes}

-- The map has at most an entry for each file of the listing.
length-record_routes :
    (objects : List Listed) (routes : List (Bytes × ℕ))
    → length (record_routes objects routes) ≤ length objects + length routes
unfolding record_routes
length-record_routes [] routes = omega arith
length-record_routes (o ∷ objects) routes = ground (
  arith,
  length-record_routes objects routes,
  length-record_routes objects (put o.url o.mod_time routes),
  length-put o.url o.mod_time routes,
)

length-record_routes_lt :
    (objects : List Listed) (routes : List (Bytes × ℕ))
    → any (λ o. not (is_route o)) objects ≡ true
    → length (record_routes objects routes) < length objects + length routes
unfolding record_routes
length-record_routes_lt [] routes h = ground arith
length-record_routes_lt (o ∷ objects) routes h = ground (
  arith,
  length-record_routes objects routes,
  length-record_routes_lt objects (put o.url o.mod_time routes),
  length-put o.url o.mod_time routes,
)

-- A folder that holds a directory or a file that is not one of rules is found to be changed at each
-- check, also right after the same listing was recorded: the listing is longer than the map.
pub has_changes_always :
    (m : Meta) (objects : List Listed)
    → any (λ o. not (is_route o)) objects ≡ true
    → has_changes (record m { routes = record_routes objects [] }) objects ≡ true
unfolding has_changes
has_changes_always m objects h = ground (arith, length-record_routes_lt objects [] h)

-- Files of different URLs.
abbrev pub IsDistinct : List Listed → Type 0
IsDistinct [] = Unit
IsDistinct (o ∷ objects) = All (λ p. same p.url o.url ≡ false) objects × IsDistinct objects

-- Files that a map has no entry for.
abbrev IsNew : List (Bytes × ℕ) → List Listed → Type 0
IsNew routes objects = All (λ o. lookup o.url routes ≡ none) objects

same_sym : (a b : Bytes) → same a b ≡ false → same b a ≡ false
same_sym a b h = ground (arith, same_iff a b, same_iff b a)

IsNew-put :
    (o : Listed) (routes : List (Bytes × ℕ)) (objects : List Listed)
    → All (λ p. same p.url o.url ≡ false) objects
    → IsNew routes objects
    → IsNew (put o.url o.mod_time routes) objects
IsNew-put o routes [] d n = tt
IsNew-put o routes (p ∷ objects) (other, d) (new, n) = (
  lookup-put_other p.url o.url o.mod_time routes (same_sym p.url o.url other) ∙ new,
  IsNew-put o routes objects d n,
)

lookup-record_routes :
    (url : Bytes) (objects : List Listed) (routes : List (Bytes × ℕ))
    → All (λ p. same p.url url ≡ false) objects
    → lookup url (record_routes objects routes) ≡ lookup url routes
unfolding record_routes
lookup-record_routes url [] routes d = refl
lookup-record_routes url (o ∷ objects) routes (other, d) = elim (Bool-cases (is_route o)) [
  | inl route ↦ rw route (
      lookup-record_routes url objects (put o.url o.mod_time routes) d
      ∙ lookup-put_other url o.url o.mod_time routes other)
  | inr foreign ↦ rw foreign (lookup-record_routes url objects routes d)
]

length-record_routes_new :
    (objects : List Listed) (routes : List (Bytes × ℕ))
    → All (λ o. is_route o ≡ true) objects
    → IsDistinct objects
    → IsNew routes objects
    → length (record_routes objects routes) ≡ length objects + length routes
unfolding record_routes
length-record_routes_new [] routes r d n = omega arith
length-record_routes_new (o ∷ objects) routes (route, r) (other, d) (new, n) = rw route (
    omega (
      arith,
      length-record_routes_new objects (put o.url o.mod_time routes) r d
          (IsNew-put o routes objects other n),
      length-put_new o.url o.mod_time routes new,
    ))

is_changed_known :
    (routes : List (Bytes × ℕ)) (o : Listed)
    → lookup o.url routes ≡ some o.mod_time
    → is_changed routes o ≡ false
unfolding is_changed
is_changed_known routes o h = rw h (ground arith)

record_routes_step :
    (o : Listed) (objects : List Listed) (routes : List (Bytes × ℕ))
    → is_route o ≡ true
    → record_routes (o ∷ objects) routes ≡ record_routes objects (put o.url o.mod_time routes)
unfolding record_routes
record_routes_step o objects routes route = rw route

any_both :
    (final : List (Bytes × ℕ)) (o : Listed) (objects : List Listed)
    → is_changed final o ≡ false
    → any (is_changed final) objects ≡ false
    → any (is_changed final) (o ∷ objects) ≡ false
any_both final o objects h k = ground (arith, h, k)

any_changed-record_routes :
    (objects : List Listed) (routes : List (Bytes × ℕ))
    → All (λ o. is_route o ≡ true) objects
    → IsDistinct objects
    → IsNew routes objects
    → any (is_changed (record_routes objects routes)) objects ≡ false
any_changed-record_routes [] routes r d n = refl
any_changed-record_routes (o ∷ objects) routes (route, r) (other, d) (new, n) =
    let table : List (Bytes × ℕ) = put o.url o.mod_time routes in
    let known : lookup o.url (record_routes objects table) ≡ some o.mod_time =
      lookup-record_routes o.url objects table other ∙ lookup-put o.url o.mod_time routes in
    ap (λ (f : List (Bytes × ℕ)). any (is_changed f) (o ∷ objects))
      (record_routes_step o objects routes route)
    ∙ (any_both (record_routes objects table) o objects
        (is_changed_known (record_routes objects table) o known)
        (any_changed-record_routes objects table r d (IsNew-put o routes objects other n)))

IsNew-nil : (objects : List Listed) → IsNew [] objects
unfolding lookup
IsNew-nil [] = tt
IsNew-nil (o ∷ objects) = (refl, IsNew-nil objects)

-- A folder of rule files alone, each under its own URL, whose listing was recorded, is found to be
-- unchanged as long as the listing stays the same.
pub has_changes_steady :
    (m : Meta) (objects : List Listed)
    → All (λ o. is_route o ≡ true) objects
    → IsDistinct objects
    → has_changes (record m { routes = record_routes objects [] }) objects ≡ false
unfolding has_changes
has_changes_steady m objects r d = ground (
  arith,
  length-record_routes_new objects [] r d (IsNew-nil objects),
  any_changed-record_routes objects [] r d (IsNew-nil objects),
)
