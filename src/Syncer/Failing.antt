-- ===== src/Syncer/Failing.antt =====
-- Which errors end the loop of `watch` in auto_xdp/syncer.py.
use auto_xdp.Base.{bool_key, list_key, nat_key, none, option_key, pair_key, string_key, ◌≡◌, ◌⊎◌}
use auto_xdp.Bpf.Kernel.{Errno, fails}
use auto_xdp.Syncer.{Port, Step, Turn, again, goes_on, stops, uncaught_error}

module _ {E B : Type 0} (p : Port E B) (t : Turn E) where
  -- a read of the kernel's maps failed in the verification of a backend
  abbrev pub VerifyFailed : Type 0
  VerifyFailed =
      (b : B) × (e : Errno) × (((p.verify_kernel_state t.at_event b).0 ≡ fails e)
        ⊎ ((p.verify_kernel_state t.at_check b).0 ≡ fails e))

  -- the connector sent a message that claims more bytes than it has
  abbrev pub DrainFailed : Type 0
  DrainFailed = (t.proc_event ≡ none) ⊎ (t.event_drain ≡ none)

  -- one of the four syncs of a turn raised what the loop does not catch
  abbrev pub SyncFailed : Type 0
  SyncFailed =
      (b : B) × (e : E) × ((e ≡ t.at_open)
        ⊎ (e ≡ t.at_relay)
        ⊎ (e ≡ t.at_event)
        ⊎ (e ≡ t.at_period))
      × ((p.sync_once e b).0 ≡ uncaught_error)

  abbrev pub Uncaught : Type 0
  Uncaught = VerifyFailed ⊎ DrainFailed ⊎ SyncFailed

  -- what is known where a part of a turn ends the loop
  abbrev Stopped : Step B → Type 0
  Stopped (goes_on w) = Unit
  Stopped (again w) = Unit
  Stopped (stops w) = Uncaught
