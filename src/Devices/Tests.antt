-- ===== src/Devices/Tests.antt =====
-- Runs of go-bridge/trusted_device_store.go, and its theorems at concrete inputs.
use Prim.Native.String.{◌++◌ as text_append}
use mathlib.Core.Bool.{true≢false}
use mathlib.Core.List.{List-discrete}
use mathlib.Core.Option.{some-injective}
use native.Mathlib.Decide.{ℕ_discrete}
use cccode_macbridge.Base.{
  ℕ, ◌≡◌, ◌≢◌, refl, String, Bool, true, false, not, ◌&&◌, sym, ap, if◌then◌else◌, ◌∙◌, eq_iff,
  Bool-cases, inl, inr, Option, none, some, List, [], ◌∷◌, str_eq,
}
use cccode_macbridge.Base.Dict.{get, put, remove}
use cccode_macbridge.Devices.{
  TrustedDeviceRecord, MemoryDeviceStore, new_memory_device_store, zero_record, add_device, add_at,
  store_record, replace_device, forget_all, forget, revoke_device, revoke_at, is_revoked,
  lookup_by_device_id, lookup_by_token_hash, lookup_of, check_record, validate_token_prefix,
  has_token_len, validate_device_auth, Call, adds, replaces, revokes, step, run,
}
use cccode_macbridge.Devices.Replace.{Replaced, replace_device_lem}
use cccode_macbridge.Devices.Index.{IsIndexed, run-IsIndexed}
use cccode_macbridge.Devices.File.{load, commit, run_file, new_file, clone_snapshot}
use cccode_macbridge.Devices.File.Durable.{Committed, run_file-durable, commit_lem}
use cccode_macbridge.Devices.Revoked.{validate_device_auth_lem, revoked_stays}

abbrev phone : TrustedDeviceRecord
phone = record zero_record {
  device_id = "p1";
  display_name = "Phone";
  platform = "ios";
  token_hash = "sha256:ccb1_x";
}

abbrev tablet : TrustedDeviceRecord
tablet = record zero_record {
  device_id = "t1";
  display_name = "Tablet";
  platform = "ios";
  token_hash = "sha256:ccb1_y";
}

abbrev digest : String → String
digest token = text_append "sha256:" token

abbrev decode : String → Option ℕ
decode payload = some 32

abbrev history : List Call
history = adds phone ∷ adds tablet ∷ []

run-IsIndexed_example : IsIndexed (run new_memory_device_store (replaces tablet ∷ history))
run-IsIndexed_example = run-IsIndexed (replaces tablet ∷ history)

-- A second phone is registered over the first, of the same platform and name; the tablet stays.
abbrev new_phone : TrustedDeviceRecord
new_phone = record phone { device_id = "p2"; token_hash = "sha256:ccb1_z" }

abbrev paired : MemoryDeviceStore
paired = run new_memory_device_store (adds phone ∷ adds tablet ∷ [])

replace_device-paired :
    (lookup_by_device_id (replace_device paired new_phone).0 "p1" ≡ none)
    × (lookup_by_device_id (replace_device paired new_phone).0 "t1" ≡ some tablet)
unfolding lookup_by_device_id replace_device forget_all forget store_record run step add_device
    add_at get put remove
replace_device-paired = (refl, refl)

replace_device_lem_example :
    (lookup_by_device_id (replace_device paired new_phone).0 "p2" ≡ some new_phone)
    × (lookup_by_token_hash (replace_device paired new_phone).0 "sha256:ccb1_z" ≡ some new_phone)
    × ((j : String)
        → str_eq "p2" j ≡ false
        → Replaced new_phone
            (lookup_by_device_id paired j)
            (lookup_by_device_id (replace_device paired new_phone).0 j))
unfolding run step add_device add_at store_record get put
replace_device_lem_example = replace_device_lem paired new_phone (refl, (refl, tt))

validate_device_auth_lem_example :
    (validate_token_prefix decode "ccb1_y" ≡ true)
    × (tablet.token_hash ≡ digest "ccb1_y")
    × (lookup_by_device_id (run new_memory_device_store history) "t1" ≡ some tablet)
    × (is_revoked tablet ≡ false)
    × ((not (str_eq "t1" "") && not (str_eq tablet.device_id "t1")) ≡ false)
unfolding validate_device_auth validate_token_prefix has_token_len lookup_by_token_hash lookup_of
    check_record run step add_device add_at store_record get put
validate_device_auth_lem_example =
    validate_device_auth_lem digest decode history "ccb1_y" "t1" tablet refl

revoked_stays_example : tablet.device_id ≢ "p1"
unfolding validate_device_auth validate_token_prefix has_token_len lookup_by_token_hash lookup_of
    check_record run step add_device add_at store_record revoke_device revoke_at get put
revoked_stays_example =
    revoked_stays digest decode history "p1" 7 (revokes "t2" 8 ∷ []) refl (refl, tt) "ccb1_y" ""
      tablet refl

-- A codec that knows two lists of records.
String-discrete : Discrete String
String-discrete s t = elim (Bool-cases (str_eq s t)) [
  | inl e ↦ yes ((eq_iff s t).0 e)
  | inr e ↦ no (λ p. true≢false (sym ((eq_iff s t).1 p) ∙ e))
]

TrustedDeviceRecord-discrete : Discrete TrustedDeviceRecord
TrustedDeviceRecord-discrete = hlevel (String-discrete, ℕ_discrete)

abbrev encode_by : {rs : List TrustedDeviceRecord} → Dec (rs ≡ phone ∷ []) → Option String
encode_by (yes _) = some "1"
encode_by (no _) = none

abbrev encode : List TrustedDeviceRecord → Option String
encode rs = encode_by (List-discrete TrustedDeviceRecord-discrete rs (phone ∷ []))

abbrev parse : String → Option (List TrustedDeviceRecord)
parse text = if str_eq text "1\n" then some (phone ∷ []) else none

encode_by-round :
    (rs : List TrustedDeviceRecord) (d : Dec (rs ≡ phone ∷ [])) (text : String)
    → encode_by d ≡ some text
    → parse (text_append text "\n") ≡ some rs
encode_by-round rs (yes p) text e =
    ap (λ t. parse (text_append t "\n")) (sym (some-injective "1" text e)) ∙ ap some (sym p)
encode_by-round rs (no _) text e = absurd (cc e)

encode-round :
    (rs : List TrustedDeviceRecord) (text : String)
    → encode rs ≡ some text
    → parse (text_append text "\n") ≡ some rs
encode-round rs text e =
    encode_by-round rs (List-discrete TrustedDeviceRecord-discrete rs (phone ∷ [])) text e

-- The second write fails, and so does the third, whose list the codec cannot encode.
abbrev commits : List (Bool × Call)
commits = (true, adds phone) ∷ (false, revokes "p1" 5) ∷ (true, adds tablet) ∷ []

run_file-durable_example :
    IsIndexed (run_file encode new_file commits).mem
    × ((stored : MemoryDeviceStore) × (load parse (run_file encode new_file commits).file
          ≡ inl stored)
        × IsIndexed stored
        × ((j : String)
            → lookup_by_device_id stored j
              ≡ lookup_by_device_id (run_file encode new_file commits).mem j))
run_file-durable_example = run_file-durable encode parse encode-round commits

commit_lem_example :
    Committed encode true new_file
      (step (clone_snapshot new_file.mem) (adds phone))
      (commit encode true new_file (adds phone))
commit_lem_example = commit_lem encode true new_file (adds phone)
