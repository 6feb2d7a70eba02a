-- ===== src/Proxy/Client.antt =====
-- lib/proxy.go, destinations/proxy.go and sources/proxy.go: the calls to the proxy.
use uback.Base.{Option, none, some, List, Bytes, Result, ok, err, Error}
use uback.Base.Commands.{Command, ◌>>=◌, ◌>>◌, pure}
use uback.Snapshot.{Snapshot, Backup}
use uback.Interfaces.{Stream}
use uback.Options.{Options}
use uback.Proxy.{proxied_options}

-- The process, the session of yamux over its pipes, and the client of net/rpc over a stream of the session.
-- The calls named `start` do not wait; `read` is `io.Copy` from the data stream, `none` if it never ends.
pub record Connection : Type 1 where
  pub State : Type 0
  pub start_process : List Bytes → Command State (Unit {0})
  pub open_session : Command State (Unit {0})
  pub open_stream : Command State (Unit {0})
  pub close_client : Command State (Unit {0})
  pub close_session : Command State (Unit {0})
  pub call_list_backups : Options → Command State (List Backup)
  pub call_remove_backup : Options → Backup → Command State (Unit {0})
  pub call_list_snapshots : Bytes → Options → Command State (List Snapshot)
  pub call_remove_snapshot : Bytes → Options → Snapshot → Command State (Unit {0})
  pub call_create_backup : Options → Option Snapshot → Command State Backup
  pub start_send_backup : Options → Backup → State → State
  pub start_receive_backup : Options → Backup → State → State
  pub start_transmit_backup : State → State
  pub write : Stream → Command State (Unit {0})
  pub read : State → State × Option Stream
  pub close_stream : Command State (Unit {0})
  pub wait : Command State (Unit {0})

module _ (C : Connection) where
  -- `OpenProxy`: a stream for the calls and one for the data.
  unfoldable pub open_proxy : List Bytes → Command C.State (Unit {0})
  open_proxy command = do C.start_process command; C.open_session; C.open_stream; C.open_stream

  abbrev pub session_closed : C.State × Result (Unit {0}) → C.State × Result (Unit {0})
  session_closed (s, ok done) = C.close_session s
  session_closed (s, err e) = ((C.close_session s).0, err e)

  -- `CloseProxy`: the session is closed in any case.
  unfoldable pub close_proxy : Command C.State (Unit {0})
  close_proxy s = session_closed (C.close_client s)

  -- `defer CloseProxy`, whose error is dropped.
  unfoldable pub and_close_proxy : {A : Type 0} → Command C.State A → Command C.State A
  unfolding close_proxy
  and_close_proxy m s = let (t, r) = m s in ((close_proxy t).0, r)

  module _ (command : List Bytes) (o : Options) where
    unfoldable pub list_backups : Command C.State (List Backup)
    unfolding open_proxy and_close_proxy
    list_backups = do
      open_proxy command
      and_close_proxy
          (C.call_list_backups (proxied_options o) >>= λ backups. close_proxy >> pure backups)

    unfoldable pub remove_backup : Backup → Command C.State (Unit {0})
    unfolding open_proxy and_close_proxy
    remove_backup b = do
      open_proxy command
      and_close_proxy (C.call_remove_backup (proxied_options o) b)

    -- The data is copied while the call runs.
    abbrev pub send_data : Stream → Command C.State (Unit {0})
    send_data stream = do C.write stream; C.close_stream; C.wait

    unfoldable pub send_backup : Backup → Stream → Command C.State (Unit {0})
    unfolding open_proxy and_close_proxy
    send_backup b stream = do
      open_proxy command
      and_close_proxy (λ s. send_data stream (C.start_send_backup (proxied_options o) b s))

    abbrev pub first_error : Result (Unit {0}) → Option Error → Option Error
    first_error (err e) failure = some e
    first_error (ok done) failure = failure

    abbrev pub closing : Option Error → C.State → C.State × Option Error
    closing (some e) s = (s, some e)
    closing none s = let (t, r) = C.close_stream s in (t, first_error r none)

    -- The copy and the call are both waited for: if the copy does not end, neither does the reader. Of two
    -- errors, which come in any order, the call's is taken.
    abbrev pub received_of : C.State × Option Stream → C.State × Result (Option Stream)
    received_of (s, none) = (s, ok none)
    received_of (s, some stream) =
        let (t, failure) = closing stream.failure s in
        let (u, r) = C.wait t in
        (
          (close_proxy u).0,
          ok (some (record { content = stream.content; failure = first_error r failure })),
        )

    unfoldable pub receive_backup : Backup → Command C.State (Option Stream)
    unfolding open_proxy close_proxy
    receive_backup b = do
      open_proxy command
      λ s. received_of (C.read (C.start_receive_backup (proxied_options o) b s))

    unfoldable pub list_snapshots : Bytes → Command C.State (List Snapshot)
    unfolding open_proxy and_close_proxy
    list_snapshots kind = do
      open_proxy command
      and_close_proxy (
          C.call_list_snapshots kind (proxied_options o) >>= λ snapshots.
          close_proxy >> pure snapshots)

    unfoldable pub remove_snapshot : Bytes → Snapshot → Command C.State (Unit {0})
    unfolding open_proxy and_close_proxy
    remove_snapshot kind k = do
      open_proxy command
      and_close_proxy (C.call_remove_snapshot kind (proxied_options o) k)

    abbrev pub with_backup :
        Backup → C.State × Result (Option Stream) → C.State × Result (Backup × Option Stream)
    with_backup b (s, ok stream) = (s, ok (b, stream))
    with_backup b (s, err e) = (s, err e)

    -- An error of the first call leaves the session open.
    unfoldable pub create_backup : Option Snapshot → Command C.State (Backup × Option Stream)
    unfolding open_proxy close_proxy
    create_backup base = do
      open_proxy command
      b ← C.call_create_backup (proxied_options o) base
      λ s. with_backup b (received_of (C.read (C.start_transmit_backup s)))
