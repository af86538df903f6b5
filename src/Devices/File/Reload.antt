-- ===== src/Devices/File/Reload.antt =====
-- What a load of the records gives, for go-bridge/trusted_device_store.go, and what a clone is.
use text.Mathlib.TextPositions.{eq_refl}
use cccode_macbridge.Base.{
  ◌≡◌, refl, sym, ap, ◌∙◌, String, inl, inr, Option, none, some, [], ◌∷◌, str_eq, eq_iff,
  Bool-cases,
}
use cccode_macbridge.Base.Dict.{Dict, get, put, IsMap, Every, empty-Every, get-put, get-put_ne}
use cccode_macbridge.Devices.{
  TrustedDeviceRecord, MemoryDeviceStore, new_memory_device_store, store_record,
}
use cccode_macbridge.Devices.Index.{IsIndexed, store_record-IsIndexed}
use cccode_macbridge.Devices.File.{clone_each, clone_snapshot, snapshot_records, load_each}

abbrev or_else :
    Option TrustedDeviceRecord → Option TrustedDeviceRecord → Option TrustedDeviceRecord
or_else none o = o
or_else (some r) o = some r

or_else-none : (o : Option TrustedDeviceRecord) → or_else o none ≡ o
or_else-none none = refl
or_else-none (some r) = refl

-- Every record stands at its own identifier.
abbrev IsOwn : Dict TrustedDeviceRecord → Type 0
IsOwn = Every (λ id r. r.device_id ≡ id)

-- What holds of all entries holds of all but the first.
tail-Every :
    (P : String → TrustedDeviceRecord → Type 0) (id : String) (r : TrustedDeviceRecord)
    (d : Dict TrustedDeviceRecord)
    → get id d ≡ none
    → Every P ((id, r) ∷ d)
    → Every P d
unfolding get
tail-Every P id r d free h j x e = elim (Bool-cases (str_eq id j)) [
  | inl same ↦ absurd (cc (free, e, (eq_iff id j).0 same))
  | inr other ↦ h j x (rw other e)
]

head-Every :
    (P : String → TrustedDeviceRecord → Type 0) (id : String) (r : TrustedDeviceRecord)
    (d : Dict TrustedDeviceRecord)
    → Every P ((id, r) ∷ d)
    → P id r
unfolding get
head-Every P id r d h = h id r (rw (eq_refl id) refl)

or_else-put :
    (id j : String) (r : TrustedDeviceRecord) (d s : Dict TrustedDeviceRecord)
    → get id d ≡ none
    → or_else (get j d) (get j (put id r s)) ≡ or_else (get j ((id, r) ∷ d)) (get j s)
unfolding get
or_else-put id j r d s free = elim (Bool-cases (str_eq id j)) [
  | inl same ↦ rw (get-put id j r s, same, sym ((eq_iff id j).0 same), free) refl
  | inr other ↦ rw (get-put_ne id j r s other, other) refl
]

get-load_each :
    (j : String) (d : Dict TrustedDeviceRecord) (s : MemoryDeviceStore)
    → IsMap d
    → IsOwn d
    → get j (load_each (snapshot_records d) s).by_id ≡ or_else (get j d) (get j s.by_id)
unfolding load_each snapshot_records store_record get
get-load_each j [] s m own = refl
get-load_each j ((id, r) ∷ d) s m own =
    get-load_each j d (store_record s r) m.1 (tail-Every (λ i x. x.device_id ≡ i) id r d m.0 own)
    ∙ ap (λ k. or_else (get j d) (get j (put k r s.by_id)))
        (head-Every (λ i x. x.device_id ≡ i) id r d own)
    ∙ or_else-put id j r d s.by_id m.0

-- None of these identifiers is in the store.
abbrev IsFree : Dict TrustedDeviceRecord → MemoryDeviceStore → Type 0
IsFree d s = Every (λ id _. get id s.by_id ≡ none) d

IsFree-store_record :
    (id : String) (r : TrustedDeviceRecord) (d : Dict TrustedDeviceRecord) (s : MemoryDeviceStore)
    → get id d ≡ none
    → r.device_id ≡ id
    → IsFree ((id, r) ∷ d) s
    → IsFree d (store_record s r)
unfolding store_record get
IsFree-store_record id r d s free own h j x e = elim (Bool-cases (str_eq id j)) [
  | inl same ↦ absurd (cc (free, e, (eq_iff id j).0 same))
  | inr other ↦
      get-put_ne r.device_id j r s.by_id (ap (λ k. str_eq k j) own ∙ other) ∙ h j x (rw other e)
]

load_each-IsIndexed :
    (d : Dict TrustedDeviceRecord) (s : MemoryDeviceStore)
    → IsMap d
    → IsOwn d
    → IsFree d s
    → IsIndexed s
    → IsIndexed (load_each (snapshot_records d) s)
unfolding load_each snapshot_records
load_each-IsIndexed [] s m own free v = v
load_each-IsIndexed ((id, r) ∷ d) s m own free v =
    let mine = head-Every (λ i x. x.device_id ≡ i) id r d own in
    load_each-IsIndexed d (store_record s r) m.1
      (tail-Every (λ i x. x.device_id ≡ i) id r d m.0 own)
      (IsFree-store_record id r d s m.0 mine free)
      (store_record-IsIndexed s r
        (ap (λ k. get k s.by_id) mine ∙ head-Every (λ i _. get i s.by_id ≡ none) id r d free) v)

-- A clone is what a load of the records would give.
clone_each-load_each :
    (d : Dict TrustedDeviceRecord) (s : MemoryDeviceStore)
    → IsMap d
    → IsOwn d
    → clone_each d s ≡ load_each (snapshot_records d) s
unfolding clone_each load_each snapshot_records store_record
clone_each-load_each [] s m own = refl
clone_each-load_each ((id, r) ∷ d) s m own =
    ap
      (λ k.
        clone_each d (record { by_id = put k r s.by_id; by_token = put r.token_hash k s.by_token }))
      (sym (head-Every (λ i x. x.device_id ≡ i) id r d own))
    ∙ clone_each-load_each d (store_record s r) m.1
        (tail-Every (λ i x. x.device_id ≡ i) id r d m.0 own)

-- A store that was loaded from the records of an indexed one.
abbrev pub reloaded : MemoryDeviceStore → MemoryDeviceStore
reloaded s = load_each (snapshot_records s.by_id) new_memory_device_store

pub empty-IsIndexed : IsIndexed new_memory_device_store
empty-IsIndexed = record { ids = tt; tokens = tt; own = empty-Every _; leads = empty-Every _ }

pub reloaded-IsIndexed : (s : MemoryDeviceStore) → IsIndexed s → IsIndexed (reloaded s)
unfolding get
reloaded-IsIndexed s v =
    load_each-IsIndexed s.by_id new_memory_device_store v.ids v.own (λ j x e. refl) empty-IsIndexed

pub get-reloaded :
    (j : String) (s : MemoryDeviceStore) → IsIndexed s → get j (reloaded s).by_id ≡ get j s.by_id
unfolding get
get-reloaded j s v =
    get-load_each j s.by_id new_memory_device_store v.ids v.own ∙ or_else-none (get j s.by_id)

pub clone_snapshot-IsIndexed : (s : MemoryDeviceStore) → IsIndexed s → IsIndexed (clone_snapshot s)
unfolding clone_snapshot
clone_snapshot-IsIndexed s v =
    rw (clone_each-load_each s.by_id new_memory_device_store v.ids v.own) (reloaded-IsIndexed s v)
