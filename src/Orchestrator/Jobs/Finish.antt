-- ===== src/Orchestrator/Jobs/Finish.antt =====
-- src/core/orchestrator.rs: the task of a job ends it.
use bksd.Base.{
  ◌≤◌, String, ◌≡◌, refl, sym, ap, subst, ◌∙◌, true, false, some, List, [], ◌∷◌, arith, length,
  ==_self, string_eq,
}
use bksd.Base.Dict
use bksd.Base.Dict.{lookup-insert, lookup-erase, insert-NodupKeys}
use bksd.Transfer.{TransferStatus, ready, in_progress, copy_complete, complete, failed}
use bksd.Db.{Sqlite, Moment}
use bksd.Orchestrator.{BlockDevice, Config, Daemon, consume, receive, Action, after_actions}
use bksd.Orchestrator.Messages.{is_terminal, ends_job}
use bksd.Orchestrator.Soundness.{IsSound}
use bksd.Orchestrator.Soundness.Receiving.{receive-IsSound}
use bksd.Orchestrator.Soundness.Receiving.Actions.{after_actions-IsSound}
use bksd.Orchestrator.Jobs.{
  HasEnded, receive_all, receive_all-idle, receive-eq, ended_complete, ended_failed, GoesOn,
  goes_on, then_ended,
}

module _ (S : Sqlite) (config : Config) (j : String) (dev : BlockDevice) where
  step :
      (m : Moment) (status : TransferStatus) (rest : List TransferStatus) (d : Daemon)
      → Dict.lookup j d.consumers ≡ some (record { dev = dev; pending = status ∷ rest })
      → is_terminal status ≡ false
      → GoesOn S config j dev status rest d (receive S config m j d)
  step m status rest d runs t =
      rw (receive-eq S config j dev m (status ∷ rest) d runs)
        (goes_on S config j dev m status rest d t)

  pub still :
      (m : Moment) (status : TransferStatus) (rest : List TransferStatus) (d : Daemon)
      → Dict.lookup j d.consumers ≡ some (record { dev = dev; pending = status ∷ rest })
      → is_terminal status ≡ false
      → Dict.lookup j (receive S config m j d).consumers
        ≡ some (record { dev = dev; pending = rest })
  still m status rest d runs t =
      let g = step m status rest d runs t in
      ap (Dict.lookup j) g.consumers
      ∙ ground
          (arith, lookup-insert j j (record { dev = dev; pending = rest }) d.consumers, ==_self j)

  stops :
      (pending : List TransferStatus) (m : Moment) (ms : List Moment) (d : Daemon)
      → Dict.lookup j d.consumers ≡ some (record { dev = dev; pending = pending })
      → HasEnded config j dev pending d (consume S config m j dev pending d)
      → HasEnded config j dev pending d (receive_all S config j dev ms (receive S config m j d))
  stops pending m ms d runs now =
      subst (HasEnded config j dev pending d)
        (sym (
          ap (receive_all S config j dev ms) (receive-eq S config j dev m pending d runs)
          ∙ receive_all-idle S config j dev ms (consume S config m j dev pending d) now.stopped))
        now

  finish :
      (pending : List TransferStatus) (ms : List Moment) (d : Daemon)
      → IsSound d
      → Dict.lookup j d.consumers ≡ some (record { dev = dev; pending = pending })
      → ends_job pending ≡ true
      → length pending ≤ length ms
      → HasEnded config j dev pending d (receive_all S config j dev ms d)
  unfolding receive_all
  finish [] ms d s runs last enough = absurd cc
  finish (status ∷ rest) [] d s runs last enough = absurd (omega arith)
  finish (complete total duration ∷ rest) (m ∷ ms) d s runs last enough =
      stops _ m ms d runs (ended_complete S config j dev m total duration rest d s)
  finish (failed e ∷ rest) (m ∷ ms) d s runs last enough =
      stops _ m ms d runs (ended_failed S config j dev m e rest d s)
  finish (ready ∷ rest) (m ∷ ms) d s runs last enough =
      then_ended S config j dev ready rest d _ _ (step m ready rest d runs refl) (
        finish rest ms (receive S config m j d) (receive-IsSound S config m j d s)
          (still m ready rest d runs refl) last (omega arith))
  finish (in_progress total copied current percentage eta ∷ rest) (m ∷ ms) d s runs last enough =
      then_ended S config j dev (in_progress total copied current percentage eta) rest d _ _
        (step m (in_progress total copied current percentage eta) rest d runs refl)
        (finish rest ms (receive S config m j d) (receive-IsSound S config m j d s)
          (still m (in_progress total copied current percentage eta) rest d runs refl) last
          (omega arith))
  finish (copy_complete ∷ rest) (m ∷ ms) d s runs last enough =
      then_ended S config j dev copy_complete rest d _ _ (step m copy_complete rest d runs refl) (
        finish rest ms (receive S config m j d) (receive-IsSound S config m j d s)
          (still m copy_complete rest d runs refl) last (omega arith))

  -- In any state that interleaved tasks can lead to, the task of a job ends it within as many steps
  -- as statuses are pending: it then receives no more and is not tracked, exactly one event was
  -- notified, if there is a notifier, with the numbers or the error of the first status that ends
  -- the job, the device was cleaned up exactly if that status is `Complete`, and the other jobs are
  -- tracked and receive as before.
  pub receive_all-HasEnded :
      (actions : List (Action S config)) (pending : List TransferStatus) (ms : List Moment)
      → Dict.lookup j (after_actions S config actions).consumers
        ≡ some (record { dev = dev; pending = pending })
      → length pending ≤ length ms
      → HasEnded config j dev pending
          (after_actions S config actions)
          (receive_all S config j dev ms (after_actions S config actions))
  receive_all-HasEnded actions pending ms runs enough =
      let s = after_actions-IsSound S config actions in
      finish pending ms (after_actions S config actions) s runs (s.ends j _ runs refl) enough
