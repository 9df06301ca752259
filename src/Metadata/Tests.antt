-- ===== src/Metadata/Tests.antt =====
-- A start, two updates of which the second fails, and a second start in the same directory.
use sbsh.Base.{
  ℕ, true, false, ◌≡◌, refl, ap, ◌⊎◌, inl, inr, Option, none, some, List, [], ◌∷◌, ◌++◌, String,
  is_empty, ◌==◌, if◌then◌else◌,
}
use sbsh.Errdefs.{Error, message, sentinel, err_terminal_id_in_use}
use sbsh.Metadata.{Dir, Answers, atomic_write_file, write_metadata}
use sbsh.Metadata.Atomic.{Replaces, IsTidy, atomic_write_file-Replaces}
use sbsh.Metadata.Owned.{
  Start, TerminalDoc, State, Update, to_state, to_attachers, live_metadata_owner, create_metadata,
  updates,
}
use sbsh.Metadata.Owned.Agreed.{FileIn, create_metadata-FileIn}
use sbsh.Metadata.Owned.Refused.{ReadsBack, create_metadata-refused}
use sbsh.Process.{ℤ, pos, negsuc, Probe, is_process_alive, match_instance, is_instance_alive}
use sbsh.Profile.Build.{inline_spec}
use sbsh.Profile.Builder.{params_from_config}
use sbsh.Profile.Options.{empty_config}
use mathlib.Core.Path.{subst}
use sbsh.Reconcile.{
  TerminalStatusMode, initializing, starting, setting_up, on_init, ready, post_attach, exited,
}

-- The process and the state of a document, as the test encodes them.
abbrev mode_code : TerminalStatusMode → ℕ
mode_code initializing = 0
mode_code starting = 1
mode_code setting_up = 2
mode_code on_init = 3
mode_code ready = 4
mode_code post_attach = 5
mode_code exited = 6

abbrev code_mode : ℕ → TerminalStatusMode
code_mode n =
    if n == 0
    then initializing
    else if n == 1
    then starting
    else if n == 2
    then setting_up
    else if n == 3
    then on_init
    else if n == 4
    then ready
    else if n == 5
    then post_attach
    else exited

abbrev pid_code : ℤ → List ℕ
pid_code (pos n) = 0 ∷ n ∷ []
pid_code (negsuc n) = 1 ∷ n ∷ []

abbrev code_pid : ℕ → ℕ → ℤ
code_pid k n = if k == 0 then pos n else negsuc n

abbrev document : ℤ → ℕ → TerminalStatusMode → TerminalDoc
document pid start m = record {
  spec = inline_spec (params_from_config empty_config "/run");
  status = record {
    pid = pid;
    pid_start = start;
    state = m;
    base_run_path = "";
    terminal_run_path = "";
    log_file = "";
    log_level = "";
    capture_file = "";
    attachers = [];
  };
}

abbrev encode : TerminalDoc → Error ⊎ List ℕ
encode t = inr (mode_code t.status.state ∷ t.status.pid_start ∷ pid_code t.status.pid)

abbrev decode : List ℕ → Option TerminalDoc
decode (m ∷ start ∷ sign ∷ n ∷ rest) = some (document (code_pid sign n) start (code_mode m))
decode b = none

mode_round : (m : TerminalStatusMode) → code_mode (mode_code m) ≡ m
mode_round initializing = refl
mode_round starting = refl
mode_round setting_up = refl
mode_round on_init = refl
mode_round ready = refl
mode_round post_attach = refl
mode_round exited = refl

pid_round :
    (m : TerminalStatusMode) (start : ℕ) (pid : ℤ)
    → decode ((mode_code m ∷ start ∷ pid_code pid) ++ 10 ∷ [])
      ≡ some (document pid start (code_mode (mode_code m)))
pid_round m start (pos n) = refl
pid_round m start (negsuc n) = refl

abbrev bytes_of : Error ⊎ List ℕ → List ℕ
bytes_of (inl e) = []
bytes_of (inr b) = b

decode-encode :
    (t : TerminalDoc) (b : List ℕ) → encode t ≡ inr b → ReadsBack decode t (b ++ 10 ∷ [])
decode-encode t b h =
    let m = t.status.state in
    (
      document t.status.pid t.status.pid_start (code_mode (mode_code m)),
      (
        subst
            (λ c.
              decode (c ++ 10 ∷ [])
              ≡ some (document t.status.pid t.status.pid_start (code_mode (mode_code m))))
            (ap bytes_of h) (pid_round m t.status.pid_start t.status.pid),
        (refl, refl, mode_round m),
      ),
    )

abbrev succeeding : Answers
succeeding = record {
  create = none;
  chmod = none;
  write = none;
  short = 0;
  sync = none;
  close = none;
  rename = none;
  unlink = none;
}

abbrev full_disk : Answers
full_disk = record succeeding { write = some (message "no space left on device"); short = 1 }

abbrev fresh : Dir
fresh = record { file = none; file_synced = true; tmp = none; tmp_synced = false }

atomic_write_file-Replaces_example :
    Replaces fresh (1 ∷ 2 ∷ []) (atomic_write_file full_disk (1 ∷ 2 ∷ []) fresh)
    × IsTidy full_disk.unlink (atomic_write_file full_disk (1 ∷ 2 ∷ []) fresh).1.0
atomic_write_file-Replaces_example = atomic_write_file-Replaces full_disk (1 ∷ 2 ∷ []) fresh refl

abbrev join : List String → String
join parts = "/run/terminals/t1"

abbrev first : Start
first = record { mkdir = none; pid = pos 7; pid_start = 5 }

abbrev second : Start
second = record { mkdir = none; pid = pos 8; pid_start = 6 }

abbrev running : Probe
running = record { found = none; signalled = none; start = 5; start_err = none }

abbrev doc : TerminalDoc
doc = document (pos 0) 0 exited

abbrev owned : State
owned = (
  record doc {
    status = record (doc.status) {
      pid = pos 7;
      pid_start = 5;
      state = initializing;
      base_run_path = doc.spec.run_path;
      terminal_run_path = "/run/terminals/t1";
      log_file = doc.spec.log_file;
      log_level = doc.spec.log_level;
      capture_file = doc.spec.capture_file;
    };
  },
  record {
    file = some (0 ∷ 5 ∷ 0 ∷ 7 ∷ 10 ∷ []);
    file_synced = true;
    tmp = none;
    tmp_synced = false;
  },
)

abbrev later : List Update
later = to_state succeeding ready ∷ to_attachers full_disk ("c1" ∷ []) ∷ []

created : create_metadata encode decode join succeeding first running (doc, fresh) ≡ (owned, none)
unfolding create_metadata live_metadata_owner write_metadata atomic_write_file is_empty
created = refl

create_metadata-refused_example :
    create_metadata encode decode join succeeding second running
      (doc, (updates encode decode later owned).1)
    ≡ ((doc, (updates encode decode later owned).1), some (sentinel err_terminal_id_in_use))
unfolding is_instance_alive is_process_alive match_instance is_empty
create_metadata-refused_example =
    create_metadata-refused encode decode decode-encode join succeeding succeeding first second
      running running doc doc fresh owned later created (refl, tt) refl refl

create_metadata-FileIn_example :
    FileIn encode decode decode-encode
      (updates encode decode later owned).0.status.state
      (updates encode decode later owned).1
create_metadata-FileIn_example =
    create_metadata-FileIn encode decode decode-encode join succeeding first running doc fresh owned
      later created
