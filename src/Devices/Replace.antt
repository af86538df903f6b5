-- ===== src/Devices/Replace.antt =====
-- `ReplaceDevice` of go-bridge/trusted_device_store.go: which records go, and what stays.
use text.Mathlib.TextPositions.{eq_refl}
use mathlib.Core.Path.{subst}
use cccode_macbridge.Base.Dict.{ne_of_not-eq}
use cccode_macbridge.Base.{
  ◌⊎◌, ◌≡◌, refl, sym, ap, ◌∙◌, String, Bool, true, false, ◌&&◌, inl, inr, Option, none, some, List,
  [], ◌∷◌, ◌++◌, if◌then◌else◌, str_eq, eq_iff, Bool-cases,
}
use cccode_macbridge.Base.Dict.{
  Dict, get, IsMap, get-put_self, get-put_ne, get-remove, remove-IsMap,
}
use cccode_macbridge.Devices.{
  TrustedDeviceRecord, MemoryDeviceStore, is_replaced_by, forget, forget_all, replace_device,
  store_record, replaced_id, lookup_by_device_id, lookup_by_token_hash, lookup_of,
}

differ : (s t : String) → str_eq s t ≡ false → ¬ (s ≡ t)
differ s t h e = let same : str_eq s t ≡ true = (eq_iff s t).1 e in cc

-- What is at an identifier after the loop: nothing, if its entry was visited and is replaced.
abbrev pub left_of :
    TrustedDeviceRecord
    → String
    → Option TrustedDeviceRecord
    → Option TrustedDeviceRecord
    → Option TrustedDeviceRecord
left_of r id none now = now
left_of r id (some existing) now = if is_replaced_by r id existing then none else now

pub forget-ids :
    (b : Bool) (id : String) (existing : TrustedDeviceRecord) (s : MemoryDeviceStore)
    → IsMap s.by_id
    → IsMap (forget b id existing s).by_id
unfolding forget
forget-ids true id existing s m = remove-IsMap id s.by_id m
forget-ids false id existing s m = m

pub get-forget :
    (b : Bool) (id j : String) (existing : TrustedDeviceRecord) (s : MemoryDeviceStore)
    → IsMap s.by_id
    → get j (forget b id existing s).by_id ≡ (if b && str_eq id j then none else get j s.by_id)
unfolding forget
get-forget true id j existing s m = get-remove id j s.by_id m
get-forget false id j existing s m = refl

if_and_true :
    {A : Type 0} (b : Bool) (x y : A) → (if b && true then x else y) ≡ (if b then x else y)
if_and_true true x y = refl
if_and_true false x y = refl

pub if_and_false : {A : Type 0} (b : Bool) (x y : A) → (if b && false then x else y) ≡ y
if_and_false true x y = refl
if_and_false false x y = refl

left_of-cons :
    (r : TrustedDeviceRecord) (id j : String) (existing : TrustedDeviceRecord)
    (entries : Dict TrustedDeviceRecord) (now : Option TrustedDeviceRecord)
    → get id entries ≡ none
    → left_of r j
        (get j entries)
        (if is_replaced_by r id existing && str_eq id j then none else now)
      ≡ left_of r j (get j ((id, existing) ∷ entries)) now
unfolding get
left_of-cons r id j existing entries now m = elim (Bool-cases (str_eq id j)) [
  | inl same ↦
      rw (sym ((eq_iff id j).0 same), m, eq_refl id)
        (if_and_true (is_replaced_by r id existing) none now)
  | inr other ↦
      rw other
        (ap (left_of r j (get j entries)) (if_and_false (is_replaced_by r id existing) none now))
]

pub get-forget_all :
    (r : TrustedDeviceRecord) (j : String) (entries : Dict TrustedDeviceRecord)
    (s : MemoryDeviceStore) (replaced : List String)
    → IsMap entries
    → IsMap s.by_id
    → get j (forget_all r entries s replaced).0.by_id ≡ left_of r j (get j entries) (get j s.by_id)
unfolding forget_all get
get-forget_all r j [] s replaced m n = refl
get-forget_all r j ((id, existing) ∷ entries) s replaced m n =
    get-forget_all r j entries (forget (is_replaced_by r id existing) id existing s)
      (replaced ++ replaced_id (is_replaced_by r id existing) r id) m.1
      (forget-ids (is_replaced_by r id existing) id existing s n)
    ∙ ap (left_of r j (get j entries)) (get-forget (is_replaced_by r id existing) id j existing s n)
    ∙ left_of-cons r id j existing entries (get j s.by_id) m.0

-- The record is one of the device that is registered anew, by its platform and its name.
abbrev pub IsSameDevice : TrustedDeviceRecord → TrustedDeviceRecord → Type 0
IsSameDevice r existing =
    (existing.platform ≡ r.platform) × (existing.display_name ≡ r.display_name)

-- What was looked up before and after: nothing, a record of the same device that is gone, or another
-- one that is still there.
abbrev pub Replaced :
    TrustedDeviceRecord → Option TrustedDeviceRecord → Option TrustedDeviceRecord → Type 0
Replaced r none after = after ≡ none
Replaced r (some existing) after =
    (IsSameDevice r existing × (after ≡ none))
    ⊎ (¬ (IsSameDevice r existing) × (after ≡ some existing))

left_of-Replaced :
    (r : TrustedDeviceRecord) (j : String) (o : Option TrustedDeviceRecord)
    → str_eq r.device_id j ≡ false
    → Replaced r o (left_of r j o o)
left_of-Replaced r j none h = refl
left_of-Replaced r j (some existing) h =
    let apart : str_eq j r.device_id ≡ false =
      ne_of_not-eq j r.device_id (λ e. differ r.device_id j h (sym e)) in
    elim (Bool-cases (str_eq existing.platform r.platform)) [
      | inr platform ↦
          inr
            (λ same. differ existing.platform r.platform platform same.0, rw (apart, platform) refl)
      | inl platform ↦ elim (Bool-cases (str_eq existing.display_name r.display_name)) [
        | inr name ↦ inr (
          λ same. differ existing.display_name r.display_name name same.1,
          rw (apart, platform, name) refl,
        )
        | inl name ↦ inl (
          (
            (eq_iff existing.platform r.platform).0 platform,
            (eq_iff existing.display_name r.display_name).0 name,
          ),
          rw (apart, platform, name) refl,
        )
      ]
    ]

pub get-replace_device :
    (s : MemoryDeviceStore) (r : TrustedDeviceRecord) (j : String)
    → IsMap s.by_id
    → str_eq r.device_id j ≡ false
    → get j (replace_device s r).0.by_id ≡ left_of r j (get j s.by_id) (get j s.by_id)
unfolding replace_device store_record
get-replace_device s r j m h =
    get-put_ne r.device_id j r (forget_all r s.by_id s []).0.by_id h
    ∙ get-forget_all r j s.by_id s [] m m

-- In a store with one record for an identifier: after `ReplaceDevice` of a record, its identifier
-- and its token's hash look the record up; any other identifier that looked up a record with the
-- same platform and display name looks up nothing, and all others look up what they did before.
pub replace_device_lem :
    (s : MemoryDeviceStore) (r : TrustedDeviceRecord)
    → IsMap s.by_id
    → (lookup_by_device_id (replace_device s r).0 r.device_id ≡ some r)
      × (lookup_by_token_hash (replace_device s r).0 r.token_hash ≡ some r)
      × ((j : String)
          → str_eq r.device_id j ≡ false
          → Replaced r (lookup_by_device_id s j) (lookup_by_device_id (replace_device s r).0 j))
unfolding lookup_by_device_id lookup_by_token_hash lookup_of replace_device store_record
replace_device_lem s r m = (
  get-put_self r.device_id r (forget_all r s.by_id s []).0.by_id,
  rw
      (
        get-put_self r.token_hash r.device_id (forget_all r s.by_id s []).0.by_token,
        get-put_self r.device_id r (forget_all r s.by_id s []).0.by_id,
      )
      refl,
  λ j h.
      subst (Replaced r (get j s.by_id)) (sym (get-replace_device s r j m h))
        (left_of-Replaced r j (get j s.by_id) h),
)
