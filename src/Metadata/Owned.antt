-- ===== src/Metadata/Owned.antt =====
-- internal/terminal/terminalrunner/metadata.go: the metadata of a terminal in memory and on disk. A
-- document comes with the directory of its file; times are left out.
pub mod Refused
pub mod Agreed
use sbsh.Base.{
  ℕ, Bool, true, false, not, ◌⊎◌, inl, inr, Option, none, some, List, [], ◌∷◌, String, is_empty,
  if◌then◌else◌,
}
use sbsh.Errdefs.{Error, Sentinel, sentinel, context, err_terminal_id_in_use}
use sbsh.Metadata.{Dir, Answers, write_metadata}
use sbsh.Process.{ℤ, Probe, is_instance_alive}
use sbsh.Profile.{TerminalSpec}
use sbsh.Reconcile.{TerminalStatusMode, initializing, is_exited}

-- The fields of a status and of a document that these functions read or write.
pub record TerminalStatus : Type 0 where
  pub pid : ℤ
  pub pid_start : ℕ
  pub state : TerminalStatusMode
  pub base_run_path : String
  pub terminal_run_path : String
  pub log_file : String
  pub log_level : String
  pub capture_file : String
  pub attachers : List String

pub record TerminalDoc : Type 0 where
  pub spec : TerminalSpec
  pub status : TerminalStatus

-- `resolveMetadataDir`, with whether the embedder owns the directory; `join` is `filepath.Join`.
abbrev pub resolve_metadata_dir : (List String → String) → String → String → String → String × Bool
resolve_metadata_dir join run_path override id =
    if is_empty override then (join (run_path ∷ "terminals" ∷ id ∷ []), false) else (override, true)

abbrev pub dir_of : (List String → String) → TerminalDoc → String × Bool
dir_of join t = resolve_metadata_dir join t.spec.run_path t.spec.metadata_dir t.spec.id

-- What a start sees of the system: the answer of MkdirAll, and the process itself.
pub record Start : Type 0 where
  pub mkdir : Option Error
  pub pid : ℤ
  pub pid_start : ℕ

abbrev pub with_status : TerminalStatus → TerminalDoc → TerminalDoc
with_status s t = record t { status = s }

abbrev pub with_state : TerminalStatusMode → TerminalDoc → TerminalDoc
with_state m t = with_status (record (t.status) { state = m }) t

abbrev pub with_attachers : List String → TerminalDoc → TerminalDoc
with_attachers ids t = with_status (record (t.status) { attachers = ids }) t

-- The status that a start sets.
abbrev pub started : Start → String → TerminalDoc → TerminalDoc
started s dir t =
    with_status
      (record (t.status) {
        pid = s.pid;
        pid_start = s.pid_start;
        state = initializing;
        base_run_path = t.spec.run_path;
        terminal_run_path = dir;
        log_file = t.spec.log_file;
        log_level = t.spec.log_level;
        capture_file = t.spec.capture_file;
      })
      t

abbrev pub State : Type 0
State = TerminalDoc × Dir

-- An update of the metadata in place: a state or the attached clients, with the answers of the write.
pub data Update : Type 0 where
  to_state : Answers → TerminalStatusMode → Update
  to_attachers : Answers → List String → Update

module _ (encode : TerminalDoc → Error ⊎ List ℕ) (decode : List ℕ → Option TerminalDoc) where
  abbrev pub active : Probe → TerminalDoc → Option TerminalDoc
  active probe t =
      if is_exited t.status.state
      then none
      else if not (is_instance_alive t.status.pid t.status.pid_start probe)
      then none
      else some t

  abbrev pub active_of : Probe → Option TerminalDoc → Option TerminalDoc
  active_of probe none = none
  active_of probe (some t) = active probe t

  abbrev pub owner_of : Probe → Option (List ℕ) → Option TerminalDoc
  owner_of probe none = none
  owner_of probe (some bytes) = active_of probe (decode bytes)

  -- `liveMetadataOwner`.
  unfoldable pub live_metadata_owner : String → Dir → Probe → Option TerminalDoc
  live_metadata_owner path d probe = if is_empty path then none else owner_of probe d.file

  abbrev pub kept : TerminalDoc → Dir × Option Error → State × Option Error
  kept t (d, e) = ((t, d), e)

  -- `updateMetadata`.
  abbrev pub update_metadata : Answers → State → State × Option Error
  update_metadata a (t, d) = kept t (write_metadata a (encode t) d)

  abbrev pub created : Answers → Start → String → State → Option Error → State × Option Error
  created a s path x (some e) = (x, some (context "mkdir terminal dir" e))
  created a s path (t, d) none = update_metadata a (started s path t, d)

  -- An embedder's own directory is not created.
  abbrev pub create_dir : Answers → Start → String × Bool → State → State × Option Error
  create_dir a s (path, true) x = created a s path x none
  create_dir a s (path, false) x = created a s path x s.mkdir

  abbrev pub create_unowned :
      Answers → Start → String × Bool → State → Option TerminalDoc → State × Option Error
  create_unowned a s path x (some t) = (x, some (sentinel err_terminal_id_in_use))
  create_unowned a s path x none = create_dir a s path x

  -- `CreateMetadata`; the probe is of the process that the file names.
  unfoldable pub create_metadata :
      (List String → String) → Answers → Start → Probe → State → State × Option Error
  unfolding live_metadata_owner write_metadata
  create_metadata join a s probe (t, d) =
      let path = dir_of join t in
      create_unowned a s path (t, d) (live_metadata_owner path.0 d probe)

  -- The state in memory is that of the file, once it is written.
  abbrev pub committed :
      TerminalStatusMode → TerminalDoc → Dir × Option Error → State × Option Error
  committed m t (d, none) = ((with_state m t, d), none)
  committed m t (d, some e) = ((t, d), some e)

  -- `updateTerminalState`.
  unfoldable pub update_terminal_state : Answers → TerminalStatusMode → State → State × Option Error
  unfolding write_metadata
  update_terminal_state a m (t, d) = committed m t (write_metadata a (encode (with_state m t)) d)

  -- `updateTerminalAttachers`.
  unfoldable pub update_terminal_attachers : Answers → List String → State → State × Option Error
  unfolding write_metadata
  update_terminal_attachers a ids (t, d) = update_metadata a (with_attachers ids t, d)

  abbrev pub update : Update → State → State × Option Error
  update (to_state a m) x = update_terminal_state a m x
  update (to_attachers a ids) x = update_terminal_attachers a ids x

  -- Updates one after the other; their errors are logged.
  unfoldable pub updates : List Update → State → State
  unfolding update_terminal_state update_terminal_attachers
  updates [] x = x
  updates (u ∷ us) x = updates us (update u x).0
