-- ===== src/Devices/File.antt =====
-- `FileDeviceStore` of go-bridge/trusted_device_store.go: a memory store whose changes are first
-- written to devices.json. `commit` holds a mutex for the whole change, so it is one step. Whether
-- core.AtomicWriteFile replaces the file, or fails and leaves it, is an argument; so are the JSON
-- encoder and decoder.
pub mod Reload
pub mod Durable
use Prim.Native.String.{◌++◌ as text_append}
use cccode_macbridge.Base.{
  String, Bool, true, false, inl, inr, ◌⊎◌, Option, none, some, List, [], ◌∷◌, if◌then◌else◌,
  str_eq,
}
use cccode_macbridge.Base.Dict.{Dict, put}
use cccode_macbridge.Devices.{
  TrustedDeviceRecord, MemoryDeviceStore, new_memory_device_store, DeviceError, write_failed,
  store_record, add_device, replace_device, enable_relay, revoke_device, Call, adds, replaces,
  enables, revokes,
}

-- What os.ReadFile finds.
pub data DeviceFile : Type 0 where
  not_exist read_failed : DeviceFile
  contents : String → DeviceFile

pub record FileDeviceStore : Type 0 where
  pub file : DeviceFile
  pub mem : MemoryDeviceStore

pub data LoadError : Type 0 where
  unreadable unparsable : LoadError

-- The loop of `cloneSnapshot`.
unfoldable pub clone_each : Dict TrustedDeviceRecord → MemoryDeviceStore → MemoryDeviceStore
clone_each [] out = out
clone_each ((id, r) ∷ entries) out =
    clone_each entries
      (record { by_id = put id r out.by_id; by_token = put r.token_hash id out.by_token })

unfoldable pub clone_snapshot : MemoryDeviceStore → MemoryDeviceStore
unfolding clone_each
clone_snapshot s = clone_each s.by_id new_memory_device_store

unfoldable pub snapshot_records : Dict TrustedDeviceRecord → List TrustedDeviceRecord
snapshot_records [] = []
snapshot_records ((id, r) ∷ entries) = r ∷ snapshot_records entries

-- The loop of `load`.
unfoldable pub load_each : List TrustedDeviceRecord → MemoryDeviceStore → MemoryDeviceStore
unfolding store_record
load_each [] s = s
load_each (r ∷ rs) s = load_each rs (store_record s r)

unfoldable pub load_parsed : Option (List TrustedDeviceRecord) → MemoryDeviceStore ⊎ LoadError
unfolding load_each
load_parsed none = inr unparsable
load_parsed (some rs) = inl (load_each rs new_memory_device_store)

-- `load`, on a new store.
unfoldable pub load :
    (String → Option (List TrustedDeviceRecord)) → DeviceFile → MemoryDeviceStore ⊎ LoadError
unfolding load_parsed
load decode not_exist = inl new_memory_device_store
load decode read_failed = inr unreadable
load decode (contents text) =
    if str_eq text "" then inl new_memory_device_store else load_parsed (decode text)

-- `commit` once the change of the clone has succeeded, by what json.MarshalIndent gives.
unfoldable pub write_back :
    Bool
    → FileDeviceStore
    → MemoryDeviceStore
    → Option String
    → FileDeviceStore × Option DeviceError
write_back written f clone none = (f, some write_failed)
write_back false f clone (some text) = (f, some write_failed)
write_back true f clone (some text) =
    (record { file = contents (text_append text "\n"); mem = clone }, none)

unfoldable pub commit_with :
    (List TrustedDeviceRecord → Option String)
    → Bool
    → FileDeviceStore
    → MemoryDeviceStore × Option DeviceError
    → FileDeviceStore × Option DeviceError
unfolding write_back snapshot_records
commit_with encode written f (clone, some e) = (f, some e)
commit_with encode written f (clone, none) =
    write_back written f clone (encode (snapshot_records clone.by_id))

-- The change that each method runs on the clone.
unfoldable pub change : Call → MemoryDeviceStore → MemoryDeviceStore × Option DeviceError
unfolding add_device replace_device enable_relay revoke_device
change (adds r) s = add_device s r
change (replaces r) s = ((replace_device s r).0, none)
change (enables id key generation) s = enable_relay s id key generation
change (revokes id now) s = revoke_device s id now

unfoldable pub commit :
    (List TrustedDeviceRecord → Option String)
    → Bool
    → FileDeviceStore
    → Call
    → FileDeviceStore × Option DeviceError
unfolding commit_with change clone_snapshot
commit encode written f c = commit_with encode written f (change c (clone_snapshot f.mem))

-- A history of commits, each with the outcome of its write.
unfoldable pub run_file :
    (List TrustedDeviceRecord → Option String)
    → FileDeviceStore
    → List (Bool × Call)
    → FileDeviceStore
unfolding commit
run_file encode f [] = f
run_file encode f ((written, c) ∷ cs) = run_file encode (commit encode written f c).0 cs

abbrev pub new_file : FileDeviceStore
new_file = record { file = not_exist; mem = new_memory_device_store }
