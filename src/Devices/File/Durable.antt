-- ===== src/Devices/File/Durable.antt =====
-- The file of go-bridge/trusted_device_store.go always reopens to what the memory holds.
use Prim.Native.String.{◌++◌ as text_append}
use Prim.Native.String.{len}
use mathlib.Core.Path.{subst}
use text.Mathlib.TextPositions.{len-append}
use cccode_macbridge.Base.{
  arith, ◌≡◌, refl, sym, ap, ◌∙◌, String, Bool, true, false, inl, Option, none, some, List, [], ◌∷◌,
  str_eq,
}
use cccode_macbridge.Base.Dict.{get, ne_of_not-eq}
use cccode_macbridge.Devices.{
  TrustedDeviceRecord, MemoryDeviceStore, new_memory_device_store, DeviceError, Call, adds,
  replaces, enables, revokes, step, lookup_by_device_id,
}
use cccode_macbridge.Devices.Index.{IsIndexed, step-IsIndexed}
use cccode_macbridge.Devices.File.{
  FileDeviceStore, contents, clone_snapshot, snapshot_records, load_parsed, load, write_back,
  commit_with, change, commit, run_file, new_file,
}
use cccode_macbridge.Devices.File.Reload.{
  reloaded, empty-IsIndexed, reloaded-IsIndexed, get-reloaded, clone_snapshot-IsIndexed,
}

change-step : (s : MemoryDeviceStore) (c : Call) → (change c s).0 ≡ step s c
unfolding change step
change-step s (adds r) = refl
change-step s (replaces r) = refl
change-step s (enables id key generation) = refl
change-step s (revokes id now) = refl

len-line : len "\n" ≡ 1
len-line = refl

ends-line : (text : String) → str_eq (text_append text "\n") "" ≡ false
ends-line text =
    ne_of_not-eq (text_append text "\n") ""
      (λ e. omega (arith, sym (len-append text "\n") ∙ ap len e, len-line))

module _ (encode : List TrustedDeviceRecord → Option String)
    (decode : String → Option (List TrustedDeviceRecord)) where
  -- The memory is indexed, and the file loads to an indexed store with the same records.
  record IsDurable (f : FileDeviceStore) : Type 0 where
    indexed : IsIndexed f.mem
    stored : MemoryDeviceStore
    loads : load decode f.file ≡ inl stored
    stored_indexed : IsIndexed stored
    same : (j : String) → get j stored.by_id ≡ get j f.mem.by_id

  module _
      (round : (rs : List TrustedDeviceRecord) (text : String)
        → encode rs ≡ some text
        → decode (text_append text "\n") ≡ some rs) where
    write_back-IsDurable :
        (written : Bool) (f : FileDeviceStore) (clone : MemoryDeviceStore) (o : Option String)
        → encode (snapshot_records clone.by_id) ≡ o
        → IsIndexed clone
        → IsDurable f
        → IsDurable (write_back written f clone o).0
    unfolding write_back load load_parsed
    write_back-IsDurable written f clone none e v d = d
    write_back-IsDurable false f clone (some text) e v d = d
    write_back-IsDurable true f clone (some text) e v d = record {
      indexed = v;
      stored = reloaded clone;
      loads = rw (ends-line text, round (snapshot_records clone.by_id) text e) refl;
      stored_indexed = reloaded-IsIndexed clone v;
      same = λ j. get-reloaded j clone v;
    }

    commit_with-IsDurable :
        (written : Bool) (f : FileDeviceStore) (clone : MemoryDeviceStore) (o : Option DeviceError)
        → IsIndexed clone
        → IsDurable f
        → IsDurable (commit_with encode written f (clone, o)).0
    unfolding commit_with
    commit_with-IsDurable written f clone (some e) v d = d
    commit_with-IsDurable written f clone none v d =
        write_back-IsDurable written f clone (encode (snapshot_records clone.by_id)) refl v d

    commit-IsDurable :
        (written : Bool) (f : FileDeviceStore) (c : Call)
        → IsDurable f
        → IsDurable (commit encode written f c).0
    unfolding commit
    commit-IsDurable written f c d =
        commit_with-IsDurable written f (change c (clone_snapshot f.mem)).0
          (change c (clone_snapshot f.mem)).1
          (subst IsIndexed (sym (change-step (clone_snapshot f.mem) c))
            (step-IsIndexed (clone_snapshot f.mem) c (clone_snapshot-IsIndexed f.mem d.indexed)))
          d

    run_file-IsDurable :
        (f : FileDeviceStore) (cs : List (Bool × Call))
        → IsDurable f
        → IsDurable (run_file encode f cs)
    unfolding run_file
    run_file-IsDurable f [] d = d
    run_file-IsDurable f ((written, c) ∷ cs) d =
        run_file-IsDurable (commit encode written f c).0 cs (commit-IsDurable written f c d)

    -- Whatever changes are made from no file on, and whichever of their writes fail: the file loads
    -- without an error, to a store that looks every identifier up as the memory does, and in both
    -- stores the two maps agree; if the decoder reads back what the encoder writes.
    pub run_file-durable :
        (cs : List (Bool × Call))
        → IsIndexed (run_file encode new_file cs).mem
          × ((stored : MemoryDeviceStore) × (load decode (run_file encode new_file cs).file
                ≡ inl stored)
              × IsIndexed stored
              × ((j : String)
                  → lookup_by_device_id stored j
                    ≡ lookup_by_device_id (run_file encode new_file cs).mem j))
    unfolding lookup_by_device_id load
    run_file-durable cs =
        let d = run_file-IsDurable new_file cs (record {
          indexed = empty-IsIndexed;
          stored = new_memory_device_store;
          loads = refl;
          stored_indexed = empty-IsIndexed;
          same = λ j. refl;
        }) in
        (d.indexed, (d.stored, d.loads, d.stored_indexed, d.same))

-- The file holds the records of the store, as the encoder writes them.
abbrev pub Holds :
    (List TrustedDeviceRecord → Option String) → FileDeviceStore → MemoryDeviceStore → Type 0
Holds encode f s =
    (text : String) × (encode (snapshot_records s.by_id) ≡ some text)
    × (f.file ≡ contents (text_append text "\n"))

-- The outcome of a commit of `after`, from `f`, by whether it reports an error.
abbrev pub Committed :
    (List TrustedDeviceRecord → Option String)
    → Bool
    → FileDeviceStore
    → MemoryDeviceStore
    → FileDeviceStore × Option DeviceError
    → Type 0
Committed encode written f after (g, some e) = g ≡ f
Committed encode written f after (g, none) =
    (written ≡ true) × (g.mem ≡ after) × Holds encode g after

write_back-Committed :
    (encode : List TrustedDeviceRecord → Option String) (written : Bool) (f : FileDeviceStore)
    (clone : MemoryDeviceStore) (o : Option String)
    → encode (snapshot_records clone.by_id) ≡ o
    → Committed encode written f clone (write_back written f clone o)
unfolding write_back
write_back-Committed encode written f clone none h = refl
write_back-Committed encode false f clone (some text) h = refl
write_back-Committed encode true f clone (some text) h = (refl, refl, (text, h, refl))

commit_with-Committed :
    (encode : List TrustedDeviceRecord → Option String) (written : Bool) (f : FileDeviceStore)
    (clone : MemoryDeviceStore) (o : Option DeviceError)
    → Committed encode written f clone (commit_with encode written f (clone, o))
unfolding commit_with
commit_with-Committed encode written f clone (some e) = refl
commit_with-Committed encode written f clone none =
    write_back-Committed encode written f clone (encode (snapshot_records clone.by_id)) refl

-- A change that reports an error, its own or that of the write, leaves the memory and the file as
-- they were. One that reports none has been written: the memory is the changed clone, and the file
-- is what the encoder makes of the records of that changed clone, and a newline.
pub commit_lem :
    (encode : List TrustedDeviceRecord → Option String) (written : Bool) (f : FileDeviceStore)
    (c : Call)
    → Committed encode written f (step (clone_snapshot f.mem) c) (commit encode written f c)
unfolding commit
commit_lem encode written f c =
    subst (λ after. Committed encode written f after (commit encode written f c))
      (change-step (clone_snapshot f.mem) c)
      (commit_with-Committed encode written f (change c (clone_snapshot f.mem)).0
        (change c (clone_snapshot f.mem)).1)
