-- ===== src/Devices/Revoked.antt =====
-- `ValidateDeviceAuth` of go-bridge/trusted_device_store.go: whom it lets in, and whom no more.
use mathlib.Core.Option.{some-injective}
use mathlib.Core.Path.{subst}
use mathlib.Core.Bool.{true≢false}
use cccode_macbridge.Base.{
  ℕ, ◌≡◌, ◌≢◌, refl, sym, ap, ◌∙◌, String, Bool, true, false, not, ◌&&◌, inl, inr, ◌⊎◌, Option,
  none, some, List, [], ◌∷◌, str_eq, eq_iff, Bool-cases, Option-cases,
}
use cccode_macbridge.Base.Dict.{get, put, get-put, get-put_self, get-put_ne}
use cccode_macbridge.Devices.{
  TrustedDeviceRecord, MemoryDeviceStore, new_memory_device_store, AuthError, add_at, add_device,
  replace_device, enable_at, enable_relay, revoke_at, revoke_device, is_revoked, is_bound_elsewhere,
  is_replaced_by, lookup_by_device_id, lookup_by_token_hash, lookup_of, check_record,
  validate_token_prefix, validate_device_auth, store_record, Call, adds, replaces, enables, revokes,
  step, run,
}
use cccode_macbridge.Devices.Replace.{left_of, get-replace_device}
use cccode_macbridge.Devices.Index.{
  IsIndexed, step-IsIndexed, run-IsIndexed, revoke_device-IsIndexed,
}

inl-injective :
    (x y : TrustedDeviceRecord) → Path (TrustedDeviceRecord ⊎ AuthError) (inl x) (inl y) → x ≡ y
inl-injective x y e = cc

check_record_lem :
    (device_id : String) (o : Option TrustedDeviceRecord) (r : TrustedDeviceRecord)
    → check_record device_id o ≡ inl r
    → (o ≡ some r)
      × (is_revoked r ≡ false)
      × ((not (str_eq device_id "") && not (str_eq r.device_id device_id)) ≡ false)
unfolding check_record
check_record_lem device_id none r e = absurd (cc e)
check_record_lem device_id (some x) r e =
    elim (Bool-cases (not (str_eq device_id "") && not (str_eq x.device_id device_id))) [
      | inl other ↦ absurd (cc (rw other at e))
      | inr same ↦ elim (Bool-cases (is_revoked x)) [
        | inl gone ↦ absurd (cc (rw (same, gone) at e))
        | inr live ↦
            let p = inl-injective x r (rw (same, live) at e) in
            (
              ap some p,
              subst (λ z. is_revoked z ≡ false) p live,
              subst (λ z. (not (str_eq device_id "") && not (str_eq z.device_id device_id)) ≡ false)
                  p same,
            )
      ]
    ]

lookup_by_token_hash_lem :
    (s : MemoryDeviceStore) (hash : String) (r : TrustedDeviceRecord)
    → IsIndexed s
    → lookup_by_token_hash s hash ≡ some r
    → (lookup_by_device_id s r.device_id ≡ some r) × (r.token_hash ≡ hash)
unfolding lookup_by_token_hash lookup_of lookup_by_device_id
lookup_by_token_hash_lem s hash r v e = elim (Option-cases (get hash s.by_token)) [
  | inl missing ↦ absurd (cc (rw missing at e))
  | inr (id, known) ↦
      let (x, found, hashed) = v.leads hash id known in
      let p = some-injective x r (rw (known, found) at e) in
      subst (λ z. (get z.device_id s.by_id ≡ some z) × (z.token_hash ≡ hash)) p
        (ap (λ i. get i s.by_id) (v.own id x found) ∙ found, hashed)
]

-- A revoked record is not looked up: none is, or it is revoked.
abbrev Blocked : String → MemoryDeviceStore → Type 0
Blocked d s = (x : TrustedDeviceRecord) → get d s.by_id ≡ some x → is_revoked x ≡ true

-- Whether a call registers this device.
abbrev pub registers : String → Call → Bool
registers d (adds r) = str_eq r.device_id d
registers d (replaces r) = str_eq r.device_id d
registers d c = false

abbrev pub NeverRegisters : String → List Call → Type 0
NeverRegisters d [] = Unit
NeverRegisters d (c ∷ cs) = (registers d c ≡ false) × NeverRegisters d cs

add_at-Blocked :
    (d : String) (s : MemoryDeviceStore) (r : TrustedDeviceRecord) (o : Option TrustedDeviceRecord)
    → str_eq r.device_id d ≡ false
    → Blocked d s
    → Blocked d (add_at s r o).0
unfolding add_at store_record
add_at-Blocked d s r none other b x e = b x (rw (get-put_ne r.device_id d r s.by_id other) at e)
add_at-Blocked d s r (some _) other b x e = b x e

left_of-some :
    (r : TrustedDeviceRecord) (j : String) (o : Option TrustedDeviceRecord)
    (x : TrustedDeviceRecord)
    → left_of r j o o ≡ some x
    → o ≡ some x
left_of-some r j none x e = e
left_of-some r j (some y) x e = elim (Bool-cases (is_replaced_by r j y)) [
  | inl gone ↦ absurd (cc (rw gone at e))
  | inr stays ↦ rw stays at e
]

replace_device-Blocked :
    (d : String) (s : MemoryDeviceStore) (r : TrustedDeviceRecord)
    → str_eq r.device_id d ≡ false
    → IsIndexed s
    → Blocked d s
    → Blocked d (replace_device s r).0
unfolding lookup_by_device_id
replace_device-Blocked d s r other v b x e =
    b x (left_of-some r d (get d s.by_id) x (sym (get-replace_device s r d v.ids other) ∙ e))

-- A write at one identifier keeps the block, if what it writes at the blocked one is revoked.
put-Blocked :
    (d id : String) (s : MemoryDeviceStore) (r : TrustedDeviceRecord)
    → (str_eq id d ≡ true → is_revoked r ≡ true)
    → Blocked d s
    → Blocked d (record s { by_id = put id r s.by_id })
put-Blocked d id s r h b x e = elim (Bool-cases (str_eq id d)) [
  | inl same ↦
      subst (λ z. is_revoked z ≡ true) (some-injective r x (rw (get-put id d r s.by_id, same) at e))
        (h same)
  | inr other ↦ b x (rw (get-put_ne id d r s.by_id other) at e)
]

enable_at-Blocked :
    (d id key : String) (generation : ℕ) (s : MemoryDeviceStore) (o : Option TrustedDeviceRecord)
    → get id s.by_id ≡ o
    → Blocked d s
    → Blocked d (enable_at s id key generation o).0
unfolding enable_at
enable_at-Blocked d id key generation s none e b = b
enable_at-Blocked d id key generation s (some r) e b = elim (Bool-cases (is_revoked r)) [
  | inl gone ↦ rw gone b
  | inr live ↦ elim (Bool-cases (is_bound_elsewhere r key)) [
    | inl bound ↦ rw (live, bound) b
    | inr free ↦
        rw (live, free) (put-Blocked d id s _ (λ same. b r (rw (sym ((eq_iff id d).0 same)) e)) b)
  ]
]

revoke_at-Blocked :
    (d id : String) (now : ℕ) (s : MemoryDeviceStore) (o : Option TrustedDeviceRecord)
    → Blocked d s
    → Blocked d (revoke_at s id now o).0
unfolding revoke_at
revoke_at-Blocked d id now s none b = b
revoke_at-Blocked d id now s (some r) b = put-Blocked d id s _ (λ _. refl) b

step-Blocked :
    (d : String) (s : MemoryDeviceStore) (c : Call)
    → registers d c ≡ false
    → IsIndexed s
    → Blocked d s
    → Blocked d (step s c)
unfolding step add_device enable_relay revoke_device
step-Blocked d s (adds r) h v b = add_at-Blocked d s r (get r.device_id s.by_id) h b
step-Blocked d s (replaces r) h v b = replace_device-Blocked d s r h v b
step-Blocked d s (enables id key generation) h v b =
    enable_at-Blocked d id key generation s (get id s.by_id) refl b
step-Blocked d s (revokes id now) h v b = revoke_at-Blocked d id now s (get id s.by_id) b

run-Blocked :
    (d : String) (s : MemoryDeviceStore) (cs : List Call)
    → NeverRegisters d cs
    → IsIndexed s
    → Blocked d s
    → Blocked d (run s cs) × IsIndexed (run s cs)
unfolding run
run-Blocked d s [] h v b = (b, v)
run-Blocked d s (c ∷ cs) h v b =
    run-Blocked d (step s c) cs h.1 (step-IsIndexed s c v) (step-Blocked d s c h.0 v b)

-- After a revocation that reports no error, the device is blocked.
revoke_device-Blocked :
    (d : String) (now : ℕ) (s : MemoryDeviceStore)
    → (revoke_device s d now).1 ≡ none
    → Blocked d (revoke_device s d now).0
unfolding revoke_device revoke_at
revoke_device-Blocked d now s e = elim (Option-cases (get d s.by_id)) [
  | inl missing ↦ absurd (cc (rw missing at e))
  | inr (r, found) ↦ rw found (λ x g.
      subst (λ z. is_revoked z ≡ true)
        (some-injective (record r { revoked_at = some now }) x
          (rw (get-put_self d (record r { revoked_at = some now }) s.by_id) at g))
        refl)
]

module _ (digest : String → String) (decode : String → Option ℕ) where
  validated :
      (s : MemoryDeviceStore) (token device_id : String) (r : TrustedDeviceRecord)
      → IsIndexed s
      → validate_device_auth digest decode s token device_id ≡ inl r
      → (validate_token_prefix decode token ≡ true)
        × (r.token_hash ≡ digest token)
        × (lookup_by_device_id s r.device_id ≡ some r)
        × (is_revoked r ≡ false)
        × ((not (str_eq device_id "") && not (str_eq r.device_id device_id)) ≡ false)
  unfolding validate_device_auth
  validated s token device_id r v e = elim (Bool-cases (str_eq token "")) [
    | inl missing ↦ absurd (cc (rw missing at e))
    | inr given ↦ elim (Bool-cases (validate_token_prefix decode token)) [
      | inr malformed ↦ absurd (cc (rw (given, malformed) at e))
      | inl formed ↦
          let (looked_up, live, same) =
            check_record_lem device_id (lookup_by_token_hash s (digest token)) r
              (rw (given, formed) at e) in
          let (found, hashed) = lookup_by_token_hash_lem s (digest token) r v looked_up in
          (formed, hashed, found, live, same)
    ]
  ]

  -- Whom `ValidateDeviceAuth` lets in, after any history of calls on a new store, has a well-formed
  -- token whose hash is in its record, is the device that its identifier looks up, is not revoked,
  -- and has the identifier that the caller gave, if the caller gave one.
  pub validate_device_auth_lem :
      (cs : List Call) (token device_id : String) (r : TrustedDeviceRecord)
      → validate_device_auth digest decode (run new_memory_device_store cs) token device_id ≡ inl r
      → (validate_token_prefix decode token ≡ true)
        × (r.token_hash ≡ digest token)
        × (lookup_by_device_id (run new_memory_device_store cs) r.device_id ≡ some r)
        × (is_revoked r ≡ false)
        × ((not (str_eq device_id "") && not (str_eq r.device_id device_id)) ≡ false)
  validate_device_auth_lem cs token device_id r e =
      validated (run new_memory_device_store cs) token device_id r (run-IsIndexed cs) e

  -- Once the revocation of a device has reported no error, after any history on a new store, no
  -- token authenticates as that device, whatever calls follow, as long as none registers its
  -- identifier anew.
  pub revoked_stays :
      (before : List Call) (d : String) (now : ℕ) (after : List Call)
      → (revoke_device (run new_memory_device_store before) d now).1 ≡ none
      → NeverRegisters d after
      → (token device_id : String) (r : TrustedDeviceRecord)
      → validate_device_auth digest decode
          (run (revoke_device (run new_memory_device_store before) d now).0 after)
          token
          device_id
        ≡ inl r
      → r.device_id ≢ d
  unfolding lookup_by_device_id
  revoked_stays before d now after ok never token device_id r e same =
      let s = run new_memory_device_store before in
      let (b, v) =
        run-Blocked d (revoke_device s d now).0 after never
          (revoke_device-IsIndexed s d now (run-IsIndexed before))
          (revoke_device-Blocked d now s ok) in
      let (_, _, found, live, _) =
        validated (run (revoke_device s d now).0 after) token device_id r v e in
      true≢false (
        sym (b r (ap (λ i. get i (run (revoke_device s d now).0 after).by_id) (sym same) ∙ found))
        ∙ live)
