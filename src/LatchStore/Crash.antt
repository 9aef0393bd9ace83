-- ===== src/LatchStore/Crash.antt =====
-- A save that fails or is cut off at any point leaves the old record or the new one.
use anolis.Base.{
  ◌≡◌, ◌≢◌, ◌⊎◌, inl, inr, refl, true, none, some, arith, Text, text_eq_iff, ℤ, ◌∙◌, Option-cases,
}
use anolis.LatchStore.{
  absent, persisted, Disk, ReadFault, reads_well, exists_fails, read_fails, load, latch_doc,
  document, SaveEnd, saves, directory_sync_fails, crash_after_rename, save, FileContent, torn,
  directory_fails, write_fails, sync_fails, rename_fails, crash_before, crash_writing,
  crash_before_rename,
}

-- Wherever a save stops, the latch file is the old one or the whole new record, and if the save returns
-- true it is the new one.
pub save_atomic :
    (dir : Text) (at : ℤ) (reason : Text) (disk : Disk) (how : SaveEnd)
    → (((save dir at reason disk how).0.file ≡ disk.file)
        ⊎ ((save dir at reason disk how).0.file ≡ some (document (latch_doc dir at reason))))
      × ((save dir at reason disk how).1 ≡ some true
          → (save dir at reason disk how).0.file ≡ some (document (latch_doc dir at reason)))
unfolding save
save_atomic dir at reason disk saves = (inr refl, λ _. refl)
save_atomic dir at reason disk directory_fails = (inl refl, λ h. absurd (ground arith))
save_atomic dir at reason disk write_fails = (inl refl, λ h. absurd (ground arith))
save_atomic dir at reason disk sync_fails = (inl refl, λ h. absurd (ground arith))
save_atomic dir at reason disk rename_fails = (inl refl, λ h. absurd (ground arith))
save_atomic dir at reason disk directory_sync_fails = (inr refl, λ _. refl)
save_atomic dir at reason disk crash_before = (inl refl, λ h. absurd (ground arith))
save_atomic dir at reason disk (crash_writing c) = (inl refl, λ h. absurd (ground arith))
save_atomic dir at reason disk crash_before_rename = (inl refl, λ h. absurd (ground arith))
save_atomic dir at reason disk crash_after_rename = (inr refl, λ _. refl)

load-latch_doc :
    (dir : Text) (at : ℤ) (reason : Text) (disk : Disk)
    → disk.file ≡ some (document (latch_doc dir at reason))
    → ((load dir disk reads_well).persisted_state ≡ persisted)
      × ((load dir disk reads_well).latched_at_epoch_ms ≡ some at)
unfolding load
load-latch_doc dir at reason disk e = ground (arith, (text_eq_iff dir dir).1 refl)

pub load_present :
    (dir : Text) (disk : Disk) (fault : ReadFault) (content : FileContent)
    → disk.file ≡ some content
    → (load dir disk fault).persisted_state ≢ absent
unfolding load
load_present dir disk exists_fails content e h = ground (arith, e, h)
load_present dir disk read_fails content e h = ground (arith, e, h)
load_present dir disk reads_well torn e h = ground (arith, e, h)
load_present dir disk reads_well (document doc) e h = ground (arith, e, h)

-- A latch file of whatever content, however it is read, is never loaded as absent.
pub load_absent :
    (dir : Text) (disk : Disk) (fault : ReadFault)
    → (load dir disk fault).persisted_state ≡ absent
    → disk.file ≡ none
load_absent dir disk fault e = elim (Option-cases disk.file) [
  | inl none_there ↦ none_there
  | inr (content, there) ↦ absurd (load_present dir disk fault content there e)
]

save_present :
    (dir : Text) (at : ℤ) (reason : Text) (disk : Disk) (how : SaveEnd) (fault : ReadFault)
    (content : FileContent)
    → disk.file ≡ some content
    → (load dir (save dir at reason disk how).0 fault).persisted_state ≢ absent
save_present dir at reason disk how fault content there =
    elim ((save_atomic dir at reason disk how).0) [
      | inl same ↦ load_present dir _ fault content (same ∙ there)
      | inr new ↦ load_present dir _ fault _ new
    ]

-- A save that returns true is read back with its time by a process with the same config directory; and
-- whatever a later save does to the disk, by a failure or a crash, what is loaded is not absent.
pub load-save :
    (dir : Text) (at later : ℤ) (reason reason' : Text) (disk : Disk) (how how' : SaveEnd)
    (fault : ReadFault)
    → (save dir at reason disk how).1 ≡ some true
    → ((load dir (save dir at reason disk how).0 reads_well).persisted_state ≡ persisted)
      × (((load dir (save dir at reason disk how).0 reads_well).latched_at_epoch_ms ≡ some at)
          × ((load dir
                (save dir later reason' (save dir at reason disk how).0 how').0
                fault).persisted_state
              ≢ absent))
load-save dir at later reason reason' disk how how' fault ok =
    let new = (save_atomic dir at reason disk how).1 ok in
    let read = load-latch_doc dir at reason (save dir at reason disk how).0 new in
    (read.0, (read.1, save_present dir later reason' _ how' fault _ new))
