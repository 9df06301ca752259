-- ===== src/Process/Tests.antt =====
-- The liveness tests at a pid that another process has taken over.
use sbsh.Base.{◌≡◌, refl, false, none}
use sbsh.Process.{
  pos, Probe, match_instance, is_process_alive, is_instance_alive, process_alive, process_is_ours,
}

abbrev probe : Probe
probe = record { found = none; signalled = none; start = 77; start_err = none }

not_alive : is_instance_alive (pos 7) 42 probe ≡ false
unfolding is_instance_alive is_process_alive match_instance
not_alive = refl

not_ours : process_is_ours (pos 7) 42 probe ≡ false
unfolding process_is_ours process_alive match_instance
not_ours = refl
