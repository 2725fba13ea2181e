-- ===== src/Service/KeepAlive/Exclusion.antt =====
-- A KeepAlive stream acts for the holder of its bind alone.
use pgcqrs.Base.{
  ℕ, ◌≤◌, String, ◌==◌, ◌≡◌, ◌≢◌, sym, ◌∙◌, true, false, Bool, Bool-cases, inl, inr, not, Option,
  Option-cases, some, none, List, [], ◌∷◌, All, arith, eq_iff,
}
use pgcqrs.Base.Table.{ids_key}
use pgcqrs.Wire.{Runtime, Result, ok, err, LockState, LockReleasedEvent}
use pgcqrs.Storage.State.{Db, LockRow, LockReleasedInfo, ◌then_do◌}
use pgcqrs.Storage.Valid.{IsValid}
use pgcqrs.Service.Outcomes.{Keeps, keeps, Keeps-if, Keeps-then_do}
use pgcqrs.Storage.Locks.{release, get_lock}
use pgcqrs.Storage.Steps.{Operation, free, beat, show_lock, perform}
use pgcqrs.Storage.Steps.Invariant.{perform-IsValid}
use pgcqrs.Storage.Steps.Protects.{Held, Safe, perform-Held, speaker}
use pgcqrs.Service.KeepAlive.{
  World, Session, Net, Turn, Ending, ClientMessage, Heartbeat, BindRequest, ServerMessage,
  bind_message, heartbeat_message, release_request, other_message, message, receive_error,
  idle_timeout, bus_event, lost, send, dispatch, answer_heartbeat, translate_heartbeat_error,
  process_heartbeat, handle_heartbeat, handle_release_request, bound_by, on_db, any_empty,
  other_lock, bind_holder, bind, dispatch_bound, on_lock_released, notify_lock_lost, goes_on,
  take_lost, when_bound, bound_session, run_bound, run,
}

same_text : (a b : String) → some a ≡ some b → a ≡ b
same_text a b e = cc

module _ (rt : Runtime) (key : ℕ × ℕ) (row : LockRow) where
  -- The database's times are within the lock's time.
  abbrev pub InTime : Net → Type 0
  InTime net = (net.server.now ≤ row.held_until) × (net.server.clean_now ≤ row.held_until)

  abbrev pub Calm : Turn → Type 0
  Calm (message net m) = InTime net
  Calm _ = Unit {0}

  -- No bind of the script names the holder of the row.
  abbrev pub BindsOther : Turn → Type 0
  BindsOther (message net (bind_message req)) = row.holder ≢ req.holder
  BindsOther _ = Unit {0}

  Kept : World → Type 0
  Kept w = Safe rt key row w.db

  performed-Kept :
      (net : Net) (op : Operation)
      → InTime net
      → ((h : String) → speaker op ≡ some h → row.holder ≢ h)
      → (db : Db) → Safe rt key row db
      → Safe rt key row (perform rt net.server op db)
  performed-Kept net op t other db safe = (
    perform-IsValid rt net.server op db safe.0,
    perform-Held rt key row net.server op
        (record { in_time = t.0; clean_in_time = t.1; other = other }) db safe,
  )

  stored-Kept : (w : World) (db : Db) → Safe rt key row db → Kept (record w { db = db })
  unfolding Kept
  stored-Kept w db h = h

  sent-Kept : (w : World) (sent : List ServerMessage) → Kept w → Kept (record w { sent = sent })
  unfolding Kept
  sent-Kept w sent h = h

  safe : (w : World) → Kept w → Safe rt key row w.db
  unfolding Kept
  safe w h = h

  module _ (net : Net) where
    send-Kept : (m : ServerMessage) (w : World) → Kept w → Keeps Kept (send net m w)
    unfolding send
    send-Kept m w h = elim (Option-cases net.send_error) [
      | inl e ↦ rw e (keeps Kept _ (sent-Kept w _ h))
      | inr (f, e) ↦ rw e (keeps Kept _ h)
    ]

    dispatch-Kept : (info : Option LockReleasedInfo) (w : World) → Kept w → Kept (dispatch info w)
    unfolding dispatch Kept
    dispatch-Kept none w h = h
    dispatch-Kept (some info) w h = h

    answer-Kept :
        (r : Result (Unit {0})) (w : World) → Kept w → Keeps Kept (answer_heartbeat net (r, w))
    unfolding answer_heartbeat
    answer-Kept (ok _) w h = send-Kept _ w h
    answer-Kept (err failure) w h = elim (Option-cases (translate_heartbeat_error failure)) [
      | inl e ↦ rw e (keeps Kept _ h)
      | inr (m, e) ↦ rw e (send-Kept m w h)
    ]

    -- Answers `false` behind a Send.
    refuse-Kept :
        (m : ServerMessage) (w : World)
        → Kept w
        → Keeps Kept (send net m w then_do λ sent w'. (ok false, w'))
    refuse-Kept m w h =
        Keeps-then_do Kept (send-Kept m w h) (λ sent w' k. keeps Kept (ok false, w') k)

    bound_by-Kept :
        (holder : String) (lock : Option LockState) (w : World)
        → Kept w
        → Keeps Kept (bound_by rt net holder lock w)
    bound_by-Kept holder none w h = refuse-Kept _ w h
    bound_by-Kept holder (some lock) w h =
        Keeps-if Kept {b = not (lock.holder == holder)} (λ e. refuse-Kept _ w h)
          (λ e. keeps Kept (ok true, w) h)

    module _ (t : InTime net) where
      process-Kept :
          (hb : Heartbeat) (holder : String) (w : World)
          → row.holder ≢ holder
          → Kept w
          → Keeps Kept (process_heartbeat net hb holder w)
      unfolding process_heartbeat
      process-Kept hb holder w other h = elim (Bool-cases (hb.holder == holder)) [
        | inr e ↦ rw e (send-Kept _ w h)
        | inl e ↦ rw e (
            answer-Kept _ _ (
              stored-Kept w _ (
                performed-Kept net (beat hb.domain hb.stream hb.consumer hb.holder hb.position) t
                  (λ n s q.
                    other (q ∙ sym (same_text hb.holder n s) ∙ (eq_iff hb.holder holder).0 e))
                  w.db (safe w h))))
      ]

      handle-Kept :
          (k : Session) (hb : Heartbeat) (w : World)
          → row.holder ≢ k.holder
          → Kept w
          → Keeps Kept (handle_heartbeat net k hb w)
      unfolding handle_heartbeat
      handle-Kept k hb w other h =
          Keeps-if Kept {b = other_lock k hb} (λ e. keeps Kept _ h)
            (λ e. process-Kept hb k.holder w other h)

      release-Kept :
          (d s c holder : String) (w : World)
          → row.holder ≢ holder
          → Kept w
          → Keeps Kept (handle_release_request rt net d s c holder w)
      unfolding handle_release_request
      release-Kept d s c holder w other h =
          Keeps-if Kept {b = any_empty d s c holder} (λ e. send-Kept _ w h)
            (λ e.
              Keeps-then_do Kept
                (keeps Kept (on_db (release rt net.server d s c holder w.db) w) (
                  stored-Kept w _ (
                    performed-Kept net (free d s c holder) t
                      (λ n q p. other (p ∙ sym (same_text holder n q))) w.db (safe w h))))
                (λ released w' k. send-Kept _ _ (dispatch-Kept released w' k)))

      bound-Kept :
          (d s c holder : String) (w : World)
          → Kept w
          → Keeps Kept (bind_holder rt net d s c holder w)
      unfolding bind_holder
      bound-Kept d s c holder w h =
          Keeps-then_do Kept
            (keeps Kept (on_db (get_lock rt net.server d s c w.db) w) (
              stored-Kept w _ (
                performed-Kept net (show_lock d s c) t (λ n q. absurd (ground (arith, q))) w.db
                  (safe w h))))
            (bound_by-Kept holder)

      bind-Kept : (req : BindRequest) (w : World) → Kept w → Keeps Kept (bind rt net req w)
      unfolding bind
      bind-Kept req w h =
          Keeps-if Kept {b = any_empty req.domain req.stream req.consumer req.holder}
            (λ e. keeps Kept _ h)
            (λ e.
              Keeps-then_do Kept (bound-Kept req.domain req.stream req.consumer req.holder w h)
                (λ bound w' k.
                  Keeps-if Kept {b = not bound} (λ e. keeps Kept _ k)
                    (λ e. Keeps-then_do Kept (send-Kept _ w' k) (λ a v l. keeps Kept _ l))))

      dispatch_bound-Kept :
          (k : Session) (m : ClientMessage) (w : World)
          → row.holder ≢ k.holder
          → Kept w
          → Keeps Kept (dispatch_bound rt net k m w)
      unfolding dispatch_bound
      dispatch_bound-Kept k (heartbeat_message hb) w other h = handle-Kept k hb w other h
      dispatch_bound-Kept k release_request w other h =
          release-Kept k.domain k.stream_name k.consumer k.holder w other h
      dispatch_bound-Kept k (bind_message req) w other h = keeps Kept _ h
      dispatch_bound-Kept k other_message w other h = keeps Kept _ h

  goes_on-Kept :
      (r : Result (Unit {0}) × World) (next : World → Ending × World)
      → Keeps Kept r
      → ((w : World) → Kept w → Kept (next w).1)
      → Kept (goes_on rt r next).1
  goes_on-Kept (ok a, w) next h f = f w h.kept
  goes_on-Kept (err e, w) next h f = h.kept

  take_lost-Kept :
      (net : Net) (evt : Option LockReleasedEvent) (w : World) (next : World → Ending × World)
      → Kept w
      → Kept (next w).1
      → Kept (take_lost rt net evt w next).1
  unfolding notify_lock_lost
  take_lost-Kept net none w next h f = f
  take_lost-Kept net (some evt) w next h f = (send-Kept net _ w h).kept

  same_holder : (evt : LockReleasedEvent) (k : Session) → (on_lock_released evt k).holder ≡ k.holder
  unfolding on_lock_released
  same_holder evt k = ground arith

  run_bound-Kept :
      (turns : List Turn) (k : Session) (w : World)
      → row.holder ≢ k.holder
      → All Calm turns
      → Kept w
      → Kept (run_bound rt turns k w).1
  unfolding run_bound
  run_bound-Kept [] k w other calm h = h
  run_bound-Kept (message net m ∷ turns) k w other calm h =
      goes_on-Kept (dispatch_bound rt net k m w) (run_bound rt turns k)
        (dispatch_bound-Kept net calm.0 k m w other h)
        (λ w' h'. run_bound-Kept turns k w' other calm.1 h')
  run_bound-Kept (receive_error failure ∷ turns) k w other calm h = h
  run_bound-Kept (idle_timeout ∷ turns) k w other calm h = h
  run_bound-Kept (bus_event evt ∷ turns) k w other calm h =
      run_bound-Kept turns (on_lock_released evt k) w (λ e. other (e ∙ same_holder evt k)) calm.1 h
  run_bound-Kept (lost net ∷ turns) k w other calm h =
      take_lost-Kept net k.lock_lost_ch w (run_bound rt turns k) h
        (run_bound-Kept turns k w other calm.1 h)

  when_bound-Kept :
      (turns : List Turn) (req : BindRequest) (r : Result Bool × World)
      → row.holder ≢ req.holder
      → All Calm turns
      → Keeps Kept r
      → Kept (when_bound rt turns req r).1
  when_bound-Kept turns req (err failure, w) other calm h = h.kept
  when_bound-Kept turns req (ok true, w) other calm h = h.kept
  when_bound-Kept turns req (ok false, w) other calm h =
      run_bound-Kept turns (bound_session req) w other calm h.kept

  run-Kept :
      (turns : List Turn) (w : World)
      → All Calm turns
      → All BindsOther turns
      → Kept w
      → Kept (run rt turns w).1
  unfolding run
  run-Kept [] w calm others h = h
  run-Kept (message net (bind_message req) ∷ turns) w calm others h =
      when_bound-Kept turns req (bind rt net req w) others.0 calm.1 (bind-Kept net calm.0 req w h)
  run-Kept (message net (heartbeat_message hb) ∷ turns) w calm others h = h
  run-Kept (message net release_request ∷ turns) w calm others h = h
  run-Kept (message net other_message ∷ turns) w calm others h = h
  run-Kept (receive_error failure ∷ turns) w calm others h = h
  run-Kept (idle_timeout ∷ turns) w calm others h = h
  run-Kept (bus_event evt ∷ turns) w calm others h = run-Kept turns w calm.1 others.1 h
  run-Kept (lost net ∷ turns) w calm others h = run-Kept turns w calm.1 others.1 h

  -- Within a lock's time, a KeepAlive stream that binds for another holder does not change and does not
  -- remove the lock, on tables that were valid at the start: whatever messages it gets, heartbeats and
  -- releases that name the lock's holder included, whichever statements and Sends fail, and whenever
  -- the stream ends.
  pub keep_alive-Held :
      (turns : List Turn) (w : World)
      → All Calm turns
      → All BindsOther turns
      → IsValid w.db
      → Held rt key row w.db
      → Held rt key row (run rt turns w).1.db
  keep_alive-Held turns w calm others valid held =
      (safe _ (run-Kept turns w calm others (stored-Kept w w.db (valid, held)))).1
