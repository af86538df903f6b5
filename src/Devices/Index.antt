-- ===== src/Devices/Index.antt =====
-- The two maps of go-bridge/trusted_device_store.go agree, after any history of calls.
use mathlib.Core.Option.{some-injective}
use mathlib.Core.Bool.{true≢false}
use cccode_macbridge.Base.{
  ℕ, ◌≡◌, refl, sym, ap, ◌∙◌, String, Bool, true, false, inl, inr, Option, none, some, List, [],
  ◌∷◌, ◌++◌, str_eq, eq_iff, Bool-cases,
}
use cccode_macbridge.Base.Dict.{
  Dict, get, put, remove, IsMap, get-put, get-put_self, get-remove, put-IsMap, remove-IsMap, Every,
  empty-Every, put-Every, remove-Every,
}
use cccode_macbridge.Devices.{
  TrustedDeviceRecord, MemoryDeviceStore, new_memory_device_store, is_replaced_by, forget,
  forget_all, store_record, replaced_id, add_at, add_device, replace_device, enable_at,
  enable_relay, revoke_at, revoke_device, is_revoked, is_bound_elsewhere, Call, adds, replaces,
  enables, revokes, step, run,
}
use cccode_macbridge.Devices.Replace.{get-forget, get-forget_all, if_and_false, left_of}
use text.Mathlib.TextPositions.{eq_refl}

-- A token's hash leads to a record that has this hash.
abbrev pub Leads : Dict TrustedDeviceRecord → String → String → Type 0
Leads d hash id = (r : TrustedDeviceRecord) × (get id d ≡ some r) × (r.token_hash ≡ hash)

-- Each map has one entry for a key, a record stands at its own identifier, and each hash leads to
-- a record that has it.
pub record IsIndexed (s : MemoryDeviceStore) : Type 0 where
  pub ids : IsMap s.by_id
  pub tokens : IsMap s.by_token
  pub own : Every (λ id r. r.device_id ≡ id) s.by_id
  pub leads : Every (Leads s.by_id) s.by_token

-- A record is written over one with its hash, or at a new identifier: the hashes lead on.
Leads-put :
    (id : String) (r : TrustedDeviceRecord) (d : Dict TrustedDeviceRecord)
    → ((old : TrustedDeviceRecord) → get id d ≡ some old → r.token_hash ≡ old.token_hash)
    → (hash j : String) → Leads d hash j
    → Leads (put id r d) hash j
Leads-put id r d keeps hash j (old, found, hashed) = elim (Bool-cases (str_eq id j)) [
  | inl same ↦
      (r, rw (get-put id j r d, same) refl, keeps old (rw ((eq_iff id j).0 same) found) ∙ hashed)
  | inr other ↦ (old, rw (get-put id j r d, other) found, hashed)
]

update-IsIndexed :
    (s : MemoryDeviceStore) (id : String) (old r : TrustedDeviceRecord)
    → get id s.by_id ≡ some old
    → r.device_id ≡ old.device_id
    → r.token_hash ≡ old.token_hash
    → IsIndexed s
    → IsIndexed (record s { by_id = put id r s.by_id })
update-IsIndexed s id old r found same_id same_hash v = record {
  ids = put-IsMap id r s.by_id v.ids;
  tokens = v.tokens;
  own = put-Every _ id r s.by_id (same_id ∙ v.own id old found) v.own;
  leads = λ hash j e.
      Leads-put id r s.by_id
        (λ other f. same_hash ∙ ap (λ x. x.token_hash) (some-injective old other (sym found ∙ f)))
        hash j (v.leads hash j e);
}

pub store_record-IsIndexed :
    (s : MemoryDeviceStore) (r : TrustedDeviceRecord)
    → get r.device_id s.by_id ≡ none
    → IsIndexed s
    → IsIndexed (store_record s r)
unfolding store_record
store_record-IsIndexed s r free v = record {
  ids = put-IsMap r.device_id r s.by_id v.ids;
  tokens = put-IsMap r.token_hash r.device_id s.by_token v.tokens;
  own = put-Every _ r.device_id r s.by_id refl v.own;
  leads =
      put-Every (Leads (put r.device_id r s.by_id)) r.token_hash r.device_id s.by_token
        (r, get-put_self r.device_id r s.by_id, refl)
        (λ hash j e.
          Leads-put r.device_id r s.by_id (λ old f. absurd (cc (sym free ∙ f))) hash j
            (v.leads hash j e));
}

-- A record and its hash go: the other hashes lead on.
Leads-forget :
    (id : String) (existing : TrustedDeviceRecord) (d : Dict TrustedDeviceRecord)
    → IsMap d
    → get id d ≡ some existing
    → (hash j : String) → str_eq existing.token_hash hash ≡ false
    → Leads d hash j
    → Leads (remove id d) hash j
Leads-forget id existing d m found hash j other (r, there, hashed) =
    elim (Bool-cases (str_eq id j)) [
      | inl same ↦ absurd (
          true≢false (
            sym (
              (eq_iff existing.token_hash hash).1 (
                ap (λ x. x.token_hash)
                  (some-injective existing r (cc (found, there, (eq_iff id j).0 same)))
                ∙ hashed))
            ∙ other))
      | inr away ↦ (r, rw (get-remove id j d m, away) there, hashed)
    ]

forget-IsIndexed :
    (b : Bool) (id : String) (existing : TrustedDeviceRecord) (s : MemoryDeviceStore)
    → get id s.by_id ≡ some existing
    → IsIndexed s
    → IsIndexed (forget b id existing s)
unfolding forget
forget-IsIndexed false id existing s found v = v
forget-IsIndexed true id existing s found v = record {
  ids = remove-IsMap id s.by_id v.ids;
  tokens = remove-IsMap existing.token_hash s.by_token v.tokens;
  own = remove-Every _ id s.by_id v.ids v.own;
  leads = λ hash j e. elim (Bool-cases (str_eq existing.token_hash hash)) [
    | inl same ↦
        absurd (cc (rw (get-remove existing.token_hash hash s.by_token v.tokens, same) at e))
    | inr other ↦
        Leads-forget id existing s.by_id v.ids found hash j other (
          v.leads hash j (rw (get-remove existing.token_hash hash s.by_token v.tokens, other) at e))
  ];
}

-- The entries that the loop has not yet visited are still in the store.
abbrev Pending : Dict TrustedDeviceRecord → MemoryDeviceStore → Type 0
Pending entries s = Every (λ j x. get j s.by_id ≡ some x) entries

Pending-forget :
    (b : Bool) (id : String) (existing : TrustedDeviceRecord) (entries : Dict TrustedDeviceRecord)
    (s : MemoryDeviceStore)
    → IsMap s.by_id
    → get id entries ≡ none
    → Pending ((id, existing) ∷ entries) s
    → Pending entries (forget b id existing s)
unfolding get
Pending-forget b id existing entries s m free p j x e = elim (Bool-cases (str_eq id j)) [
  | inl same ↦ absurd (cc (free, e, (eq_iff id j).0 same))
  | inr other ↦
      rw (get-forget b id j existing s m, other)
        (rw (if_and_false b none (get j s.by_id)) (p j x (rw other e)))
]

forget_all-IsIndexed :
    (r : TrustedDeviceRecord) (entries : Dict TrustedDeviceRecord) (s : MemoryDeviceStore)
    (replaced : List String)
    → IsMap entries
    → Pending entries s
    → IsIndexed s
    → IsIndexed (forget_all r entries s replaced).0
unfolding forget_all get
forget_all-IsIndexed r [] s replaced m p v = v
forget_all-IsIndexed r ((id, existing) ∷ entries) s replaced m p v =
    forget_all-IsIndexed r entries (forget (is_replaced_by r id existing) id existing s)
      (replaced ++ replaced_id (is_replaced_by r id existing) r id) m.1
      (Pending-forget (is_replaced_by r id existing) id existing entries s v.ids m.0 p)
      (forget-IsIndexed (is_replaced_by r id existing) id existing s
        (p id existing (rw (eq_refl id) refl)) v)

left_of_self :
    (r : TrustedDeviceRecord) (o : Option TrustedDeviceRecord) → left_of r r.device_id o o ≡ none
left_of_self r none = refl
left_of_self r (some x) = rw (eq_refl r.device_id) refl

replace_device-IsIndexed :
    (s : MemoryDeviceStore) (r : TrustedDeviceRecord)
    → IsIndexed s
    → IsIndexed (replace_device s r).0
unfolding replace_device
replace_device-IsIndexed s r v =
    store_record-IsIndexed (forget_all r s.by_id s []).0 r
      (get-forget_all r r.device_id s.by_id s [] v.ids v.ids
        ∙ left_of_self r (get r.device_id s.by_id))
      (forget_all-IsIndexed r s.by_id s [] v.ids (λ j x e. e) v)

add_at-IsIndexed :
    (s : MemoryDeviceStore) (r : TrustedDeviceRecord) (o : Option TrustedDeviceRecord)
    → get r.device_id s.by_id ≡ o
    → IsIndexed s
    → IsIndexed (add_at s r o).0
unfolding add_at
add_at-IsIndexed s r none e v = store_record-IsIndexed s r e v
add_at-IsIndexed s r (some x) e v = v

enable_at-IsIndexed :
    (s : MemoryDeviceStore) (id key : String) (generation : ℕ) (o : Option TrustedDeviceRecord)
    → get id s.by_id ≡ o
    → IsIndexed s
    → IsIndexed (enable_at s id key generation o).0
unfolding enable_at
enable_at-IsIndexed s id key generation none e v = v
enable_at-IsIndexed s id key generation (some r) e v = elim (Bool-cases (is_revoked r)) [
  | inl gone ↦ rw gone v
  | inr live ↦ elim (Bool-cases (is_bound_elsewhere r key)) [
    | inl bound ↦ rw (live, bound) v
    | inr free ↦ rw (live, free) (update-IsIndexed s id r _ e refl refl v)
  ]
]

revoke_at-IsIndexed :
    (s : MemoryDeviceStore) (id : String) (now : ℕ) (o : Option TrustedDeviceRecord)
    → get id s.by_id ≡ o
    → IsIndexed s
    → IsIndexed (revoke_at s id now o).0
unfolding revoke_at
revoke_at-IsIndexed s id now none e v = v
revoke_at-IsIndexed s id now (some r) e v = update-IsIndexed s id r _ e refl refl v

pub revoke_device-IsIndexed :
    (s : MemoryDeviceStore) (id : String) (now : ℕ)
    → IsIndexed s
    → IsIndexed (revoke_device s id now).0
unfolding revoke_device
revoke_device-IsIndexed s id now v = revoke_at-IsIndexed s id now (get id s.by_id) refl v

pub step-IsIndexed : (s : MemoryDeviceStore) (c : Call) → IsIndexed s → IsIndexed (step s c)
unfolding step add_device enable_relay revoke_device
step-IsIndexed s (adds r) v = add_at-IsIndexed s r (get r.device_id s.by_id) refl v
step-IsIndexed s (replaces r) v = replace_device-IsIndexed s r v
step-IsIndexed s (enables id key generation) v =
    enable_at-IsIndexed s id key generation (get id s.by_id) refl v
step-IsIndexed s (revokes id now) v = revoke_device-IsIndexed s id now v

run_from-IsIndexed : (s : MemoryDeviceStore) (cs : List Call) → IsIndexed s → IsIndexed (run s cs)
unfolding run
run_from-IsIndexed s [] v = v
run_from-IsIndexed s (c ∷ cs) v = run_from-IsIndexed (step s c) cs (step-IsIndexed s c v)

-- After any history of calls on a new store, its two maps agree: each has one entry for a key,
-- every record stands at its own identifier, and every token hash leads to a record that has it.
pub run-IsIndexed : (cs : List Call) → IsIndexed (run new_memory_device_store cs)
run-IsIndexed cs =
    run_from-IsIndexed new_memory_device_store cs
      (record { ids = tt; tokens = tt; own = empty-Every _; leads = empty-Every _ })
