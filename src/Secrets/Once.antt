-- ===== src/Secrets/Once.antt =====
-- That the secrets of a resource are decrypted once.
use smirror.Prelude.{
  List, [], ◌∷◌, true, false, Option, none, some, Bytes, Error, Result, ok, err, ◌≡◌, ◌⊎◌, inl, inr,
  refl, ap, Bool-cases, Option-cases, Result-cases, arith,
}
use smirror.Config.Types.{Credentials, CustomKey, Resource}
use smirror.Secrets.{
  Keys, lacks_auth, lacks_key, has_auth, has_key, is_settled, decode_base64_if_needed, opened,
  load_auth, make_key, load_key, load_secrets, next_resource, after_load, init,
}

-- A property of a result, unless it is an error.
abbrev OnOk : {A : Type 0} → (A → Type 0) → Result A → Type 0
OnOk P (ok a) = P a
OnOk P (err e) = Unit

-- Every resource has its secrets, or wants none.
abbrev pub AllSettled : List (Option Resource) → Type 0
AllSettled [] = Unit
AllSettled (none ∷ rest) = AllSettled rest
AllSettled (some r ∷ rest) = (is_settled r ≡ true) × AllSettled rest

abbrev OnNone : Option Error × List (Option Resource) → Type 0
OnNone (none, rs) = AllSettled rs
OnNone (some e, rs) = Unit

module _ {K : Type 0} (keys : Keys K) (source_scheme : Bytes) where
  load_auth-has_auth :
      (k : K) (c : Option Credentials)
      → lacks_auth c ≡ true
      → OnOk (λ c'. has_auth c' ≡ true) (load_auth keys source_scheme k c)
  unfolding load_auth
  load_auth-has_auth k none h = ground (arith, h)
  load_auth-has_auth k (some c) h = elim (Option-cases c.auth) [
    | inr (auth, there) ↦ rw (there, load_auth) (rw there refl)
    | inl missing ↦ elim (Result-cases (keys.decrypt k c.secret)) [
      | inl (e, failed) ↦ rw (missing, load_auth) (rw (failed, load_auth) tt)
      | inr (bytes, decrypted) ↦ rw (missing, load_auth) (rw (decrypted, load_auth) refl)
    ]
  ]

  make_key-has_key :
      (c : CustomKey) (r : Result Bytes)
      → OnOk (λ c'. has_key c' ≡ true) (make_key keys source_scheme c r)
  unfolding make_key
  make_key-has_key c (err e) = tt
  make_key-has_key c (ok bytes) =
      elim (Result-cases (keys.new_aes256_key (decode_base64_if_needed keys source_scheme bytes))) [
        | inl (e, failed) ↦ rw (failed, make_key) tt
        | inr (key, made) ↦ rw (made, make_key) refl
      ]

  load_key-has_key :
      (k : K) (c : Option CustomKey)
      → lacks_key c ≡ true
      → OnOk (λ c'. has_key c' ≡ true) (load_key keys source_scheme k c)
  unfolding load_key
  load_key-has_key k none h = ground (arith, h)
  load_key-has_key k (some c) h = elim (Option-cases c.aes256_key) [
    | inr (key, there) ↦ rw (there, load_key) (rw there refl)
    | inl missing ↦ rw (missing, load_key) (make_key-has_key c (keys.decrypt k c.secret))
  ]

  -- A resource that is not settled lacks one of its secrets.
  unsettled :
      (r : Resource)
      → is_settled r ≡ false
      → (lacks_auth r.credentials ≡ true) ⊎ (lacks_key r.custom_key ≡ true)
  unfolding is_settled
  unsettled r h = elim (Bool-cases (lacks_auth r.credentials)) [
    | inl auth ↦ inl auth
    | inr _ ↦ elim (Bool-cases (lacks_key r.custom_key)) [
      | inl key ↦ inr key
      | inr _ ↦ ground arith
    ]
  ]

  -- a loaded resource
  abbrev Loaded : Option Error × Resource → Type 0
  Loaded (none, r) = is_settled r ≡ true
  Loaded (some e, r) = Unit

  load_secrets-Loaded :
      (k : K) (r : Resource) → is_settled r ≡ false → Loaded (load_secrets keys source_scheme k r)
  unfolding load_secrets is_settled
  load_secrets-Loaded k r h = elim (Result-cases (load_auth keys source_scheme k r.credentials)) [
    | inl (e, failed) ↦ rw (failed, load_secrets) tt
    | inr (credentials, auth) ↦ elim (Result-cases (load_key keys source_scheme k r.custom_key)) [
      | inl (e, failed) ↦ rw (auth, load_secrets) (rw (failed, load_secrets) tt)
      | inr (custom_key, key) ↦
          rw (auth, load_secrets)
            (rw (key, load_secrets)
              (elim (unsettled r h) [
                | inl lacks ↦
                    let has : has_auth credentials ≡ true =
                      rw (auth, OnOk) at (load_auth-has_auth k r.credentials lacks) in
                    ground (arith, has)
                | inr lacks ↦
                    let has : has_key custom_key ≡ true =
                      rw (key, OnOk) at (load_key-has_key k r.custom_key lacks) in
                    ground (arith, has)
              ]))
    ]
  ]

  next_resource-OnNone :
      (r : Resource) (done : Option Error × List (Option Resource))
      → is_settled r ≡ true
      → OnNone done
      → OnNone (next_resource r done)
  next_resource-OnNone r (none, rest) h k = (h, k)
  next_resource-OnNone r (some e, rest) h k = tt

  after_load-OnNone :
      (loaded : Option Error × Resource) (rest : List (Option Resource))
      (done : Option Error × List (Option Resource))
      → Loaded loaded
      → OnNone done
      → OnNone (after_load loaded rest done)
  after_load-OnNone (none, r) rest done h k = next_resource-OnNone r done h k
  after_load-OnNone (some e, r) rest done h k = tt

  skip-OnNone :
      (done : Option Error × List (Option Resource)) → OnNone done → OnNone (done.0, none ∷ done.1)
  skip-OnNone (none, rest) h = h
  skip-OnNone (some e, rest) h = tt

  init-OnNone : (k : Option K) (rs : List (Option Resource)) → OnNone (init keys source_scheme k rs)
  unfolding init
  init-OnNone k [] = tt
  init-OnNone k (none ∷ rest) = skip-OnNone (init keys source_scheme k rest) (init-OnNone k rest)
  init-OnNone k (some r ∷ rest) = elim (Bool-cases (is_settled r)) [
    | inl settled ↦
        rw settled
          (next_resource-OnNone r (init keys source_scheme k rest) settled (init-OnNone k rest))
    | inr open_one ↦ elim (Result-cases (opened keys source_scheme k)) [
      | inl (e, failed) ↦ rw (open_one, init) (rw (failed, init) tt)
      | inr (service, started) ↦
          rw (open_one, init)
            (rw (started, init)
              (after_load-OnNone (load_secrets keys source_scheme service r) rest
                (init keys source_scheme (some service) rest)
                (load_secrets-Loaded service r open_one) (init-OnNone (some service) rest)))
    ]
  ]

  init-settled :
      (k : Option K) (rs : List (Option Resource))
      → AllSettled rs
      → init keys source_scheme k rs ≡ (none, rs)
  unfolding init
  init-settled k [] h = refl
  init-settled k (none ∷ rest) h =
      ap (λ (r : Option Error × List (Option Resource)). (r.0, none ∷ r.1)) (init-settled k rest h)
  init-settled k (some r ∷ rest) (settled, h) = rw settled (
      ap (λ (q : Option Error × List (Option Resource)). (q.0, some r ∷ q.1))
        (init-settled k rest h))

  -- After an `Init` that succeeds, the resources have their secrets: another `Init` succeeds without
  -- any key management service, and changes none of them.
  pub init-again :
      (k k' : Option K) (rs rs' : List (Option Resource))
      → init keys source_scheme k rs ≡ (none, rs')
      → init keys source_scheme k' rs' ≡ (none, rs')
  init-again k k' rs rs' done =
      let settled : AllSettled rs' = rw (done, OnNone) at (init-OnNone k rs) in
      init-settled k' rs' settled
