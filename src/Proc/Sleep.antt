-- ===== src/Proc/Sleep.antt =====
-- sleep and wakeup of src/kernel/proc.c together.
use halo_os.Base.{ℕ, ◌<◌, ◌≡◌, ◌≢◌, refl, true, ==_refl, ==_of_ne, lt→ltb}
use halo_os.Proc.{State, Chan, Table, nproc, same_chan, wakeup, sleep}
use halo_os.Proc.Wakeup.{wakeup-woken}

same_chan_refl : (chan : Chan) → same_chan chan chan ≡ true
same_chan_refl Chan.nowhere = refl
same_chan_refl (Chan.of_proc i) = ==_refl i
same_chan_refl (Chan.other a) = ==_refl a

-- A process of the table that has gone to sleep on a channel is runnable after a wakeup of that
-- channel by any other process, and still has the channel that it slept on.
pub wakeup-sleep :
    (t : Table) (me other : ℕ) (chan : Chan)
    → me < nproc
    → me ≢ other
    → (((wakeup other chan (sleep t me chan)).procs me).state ≡ State.runnable)
      × (((wakeup other chan (sleep t me chan)).procs me).chan ≡ chan)
unfolding sleep
wakeup-sleep t me other chan lt ne =
    let (e, _, _) = wakeup-woken other chan (sleep t me chan) me in
    rw (e, lt→ltb me nproc lt, ==_refl me, ==_of_ne me other ne, same_chan_refl chan) (refl, refl)
