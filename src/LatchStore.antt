-- ===== src/LatchStore.antt =====
-- core/control/latch_store.{hpp,cpp}: the record of the software stop on disk. The file system renames
-- atomically; the JSON library is the reading of a file as a document with fields, each `none` where it
-- is missing or of another type. The name of the file, a hash of the config directory, is left out.
pub mod Crash
use anolis.Base.{
  ℕ, Bool, true, false, not, ◌&&◌, ◌||◌, Option, none, some, if◌then◌else◌, Text, text_eq, ℤ,
}

pub data PersistedState : Type 0 where
  absent unreadable persisted : PersistedState

-- What the text of `detail` says.
pub data LatchDetail : Type 0 where
  no_detail could_not_check could_not_read not_a_record other_config_dir records_stop : LatchDetail

pub record PersistedLatch : Type 0 where
  pub persisted_state : PersistedState
  pub latched_at_epoch_ms : Option ℤ
  pub detail : LatchDetail

pub record LatchDoc : Type 0 where
  pub schema_version : ℕ
  pub doc_latched : Option Bool
  pub doc_latched_at : Option ℤ
  pub doc_config_dir : Option Text
  pub doc_reason : Text

-- `torn` is a text that does not parse as an object.
pub data FileContent : Type 0 where
  torn : FileContent
  document : LatchDoc → FileContent

pub record Disk : Type 0 where
  pub file : Option FileContent
  pub tmp : Option FileContent

pub data ReadFault : Type 0 where
  reads_well exists_fails read_fails : ReadFault

abbrev found : PersistedState → Option ℤ → LatchDetail → PersistedLatch
found state at why = record { persisted_state = state; latched_at_epoch_ms = at; detail = why }

unfoldable pub load : Text → Disk → ReadFault → PersistedLatch
load config_dir disk exists_fails = found unreadable none could_not_check
load config_dir disk fault = elim disk.file [
  | none ↦ found absent none no_detail
  | some content ↦ elim fault [
    | read_fails ↦ found unreadable none could_not_read
    | _ ↦ elim content [
      | torn ↦ found unreadable none not_a_record
      | document doc ↦ elim doc.doc_latched [
        | some true ↦ elim doc.doc_config_dir [
          | some dir ↦
              if text_eq dir config_dir
              then found persisted doc.doc_latched_at records_stop
              else found unreadable none other_config_dir
          | none ↦ found unreadable none other_config_dir
        ]
        | _ ↦ found unreadable none not_a_record
      ]
    ]
  ]
]

-- Where a save stops: at its end, at a call that fails, or at a crash of the machine. A crash while the
-- file is written leaves any content of it.
pub data SaveEnd : Type 0 where
  saves : SaveEnd
  directory_fails write_fails sync_fails rename_fails directory_sync_fails : SaveEnd
  crash_before : SaveEnd
  crash_writing : FileContent → SaveEnd
  crash_before_rename crash_after_rename : SaveEnd

abbrev pub latch_doc : Text → ℤ → Text → LatchDoc
latch_doc config_dir at reason = record {
  schema_version = 1;
  doc_latched = some true;
  doc_latched_at = some at;
  doc_config_dir = some config_dir;
  doc_reason = reason;
}

-- The disk after a save, and what the save returns; `none` where it does not return.
unfoldable pub save : Text → ℤ → Text → Disk → SaveEnd → Disk × Option Bool
save config_dir at reason disk how =
    let new : FileContent = document (latch_doc config_dir at reason) in
    let renamed : Disk = record { file = some new; tmp = none } in
    elim how [
      | saves ↦ (renamed, some true)
      | directory_fails ↦ (disk, some false)
      | write_fails ↦ (record disk { tmp = none }, some false)
      | sync_fails ↦ (record disk { tmp = none }, some false)
      | rename_fails ↦ (record disk { tmp = none }, some false)
      | directory_sync_fails ↦ (renamed, some false)
      | crash_before ↦ (disk, none)
      | crash_writing content ↦ (record disk { tmp = some content }, none)
      | crash_before_rename ↦ (record disk { tmp = some new }, none)
      | crash_after_rename ↦ (renamed, none)
    ]

pub data RemoveEnd : Type 0 where
  removes remove_fails remove_sync_fails : RemoveEnd

unfoldable pub remove : Disk → RemoveEnd → Disk × Bool
remove disk removes = (record disk { file = none }, true)
remove disk remove_fails = (disk, false)
remove disk remove_sync_fails = elim disk.file [
  | none ↦ (disk, true)
  | some _ ↦ (record disk { file = none }, false)
]
