-- ===== src/Process/Alive.antt =====
-- The two liveness tests against a process table.
use sbsh.Base.{ℕ, ◌≡◌, ◌≢◌, refl, Bool, true, false, Option, none, some, arith, ◌==◌}
use sbsh.Process.{
  pos, Errno, esrch, eperm, Probe, match_instance, is_process_alive, is_instance_alive,
  process_alive, process_is_ours,
}

-- Who holds a pid: nobody, or an instance with its start token, which may belong to another user.
pub record Holder : Type 0 where
  pub token : ℕ
  pub ours : Bool

-- What Linux answers: the start token of a process is not 0.
pub data Answers : Option Holder → Probe → Type 0 where
  gone :
      (found e : Option Errno)
      → Answers none (record {
        found = found;
        signalled = some esrch;
        start = 0;
        start_err = some Errno.err_not_exist;
      })
  held :
      (h : Holder)
      → h.token ≢ 0
      → Answers (some h) (record {
        found = none;
        signalled = elim h.ours [ true ↦ none | false ↦ some eperm ];
        start = h.token;
        start_err = none;
      })

-- Whether the recorded instance is the one that holds the pid; token 0 was not recorded.
abbrev pub is_instance : ℕ → Option Holder → Bool
is_instance start none = false
is_instance start (some h) = elim (start == 0) [ true ↦ true | false ↦ h.token == start ]

-- On the answers of Linux, both liveness tests say of a positive pid whether the recorded instance
-- still holds it: a process of another user counts, a pid that another process has taken over does
-- not.
pub is_instance_alive-process_is_ours :
    (n start : ℕ) (h : Option Holder) (p : Probe)
    → n ≢ 0
    → Answers h p
    → (is_instance_alive (pos n) start p ≡ is_instance start h)
      × (process_is_ours (pos n) start p ≡ is_instance start h)
unfolding is_instance_alive process_is_ours process_alive is_process_alive match_instance
is_instance_alive-process_is_ours ℕ.zero start h p n _ = absurd (n refl)
is_instance_alive-process_is_ours (ℕ.suc n) ℕ.zero h p nz (gone none e) = (refl, refl)
is_instance_alive-process_is_ours (ℕ.suc n) (ℕ.suc start) h p nz (gone none e) = ground arith
is_instance_alive-process_is_ours (ℕ.suc n) ℕ.zero h p nz (gone (some x) e) = (refl, refl)
is_instance_alive-process_is_ours (ℕ.suc n) (ℕ.suc start) h p nz (gone (some x) e) = ground arith
is_instance_alive-process_is_ours (ℕ.suc n) ℕ.zero h p nz (held k tz) = ground arith
is_instance_alive-process_is_ours (ℕ.suc n) (ℕ.suc start) h p nz (held k tz) = ground arith
