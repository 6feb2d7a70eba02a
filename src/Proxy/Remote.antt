-- ===== src/Proxy/Remote.antt =====
-- A proxy's calls against the handlers that answer them.
use uback.Base.{◌≡◌, ◌⊎◌, inl, inr, ap, ◌∙◌, List, Bytes, codes, ok, err, Error}
use uback.Base.Commands.{Command, ◌>>=◌, ◌>>◌, pure}
use uback.Snapshot.{Snapshot, Backup}
use uback.Interfaces.Acting.{ActingDestination, ActingSource}
use uback.Options.{Options}
use uback.Proxy.{proxied_options}
use uback.Proxy.Stages.{
  Stage, no_session, started, connected, half_open, ready, shut, Moves, Answers, then-Moves,
  then-Answers, keep-Answers,
}
use uback.Proxy.Client.{
  Connection, session_closed, open_proxy, close_proxy, and_close_proxy, list_backups, remove_backup,
  list_snapshots, remove_snapshot,
}
use uback.Proxy.Server.{
  serve_list_backups, serve_remove_backup, serve_list_archives, serve_list_bookmarks,
  serve_remove_archive, serve_remove_bookmark,
}

module _ {W : Type 0} (C : Connection) (remote : C.State → W) (stage : C.State → Stage)
    (with_destination : Options → Command W (ActingDestination W))
    (with_source : Options → Command W (ActingSource W)) where
  -- What yamux and net/rpc promise where nothing is lost. Opening and closing do nothing in the other side's world.
  -- A call is its handler's while both streams are open. Closing a client that is closed is an error.
  pub record Carries : Type 0 where
    pub start_process-Moves :
        (command : List Bytes) → Moves remote stage (C.start_process command) no_session started
    pub open_session-Moves : Moves remote stage C.open_session started connected
    pub open_stream_calls : Moves remote stage C.open_stream connected half_open
    pub open_stream_data : Moves remote stage C.open_stream half_open ready
    pub close_client-Moves : Moves remote stage C.close_client ready shut
    pub close_client_again :
        (s : C.State)
        → stage s ≡ no_session
        → ((x : Error) × ((C.close_client s).1 ≡ err x))
          × (remote (C.close_client s).0 ≡ remote s)
          × (stage (C.close_client s).0 ≡ no_session)
    pub close_session-Moves : Moves remote stage C.close_session shut no_session
    pub close_session_again : Moves remote stage C.close_session no_session no_session
    pub call_list_backups-Answers :
        (o : Options)
        → Answers remote stage
            (C.call_list_backups o)
            (serve_list_backups with_destination o)
            ready
            (λ t. t ≡ ready)
    pub call_remove_backup-Answers :
        (o : Options) (b : Backup)
        → Answers remote stage
            (C.call_remove_backup o b)
            (serve_remove_backup with_destination o b)
            ready
            (λ t. t ≡ ready)
    pub call_list_archives-Answers :
        (o : Options)
        → Answers remote stage
            (C.call_list_snapshots (codes "Archives") o)
            (serve_list_archives with_source o)
            ready
            (λ t. t ≡ ready)
    pub call_list_bookmarks-Answers :
        (o : Options)
        → Answers remote stage
            (C.call_list_snapshots (codes "Bookmarks") o)
            (serve_list_bookmarks with_source o)
            ready
            (λ t. t ≡ ready)
    pub call_remove_archive-Answers :
        (o : Options) (k : Snapshot)
        → Answers remote stage
            (C.call_remove_snapshot (codes "Archive") o k)
            (serve_remove_archive with_source o k)
            ready
            (λ t. t ≡ ready)
    pub call_remove_bookmark-Answers :
        (o : Options) (k : Snapshot)
        → Answers remote stage
            (C.call_remove_snapshot (codes "Bookmark") o k)
            (serve_remove_bookmark with_source o k)
            ready
            (λ t. t ≡ ready)

  module _ (L : Carries) (command : List Bytes) (o : Options) where
    open_proxy-Moves : Moves remote stage (open_proxy C command) no_session ready
    unfolding open_proxy
    open_proxy-Moves =
        then-Moves remote stage (C.start_process command) _ (L.start_process-Moves command) (
          then-Moves remote stage C.open_session _ L.open_session-Moves (
            then-Moves remote stage C.open_stream C.open_stream L.open_stream_calls
              L.open_stream_data))

    close_proxy-Moves : Moves remote stage (close_proxy C) ready no_session
    unfolding close_proxy
    close_proxy-Moves s h =
        let t = (C.close_client s).0 in
        let (done, same, at) = L.close_client-Moves s h in
        let (done', same', at') = L.close_session-Moves t at in
        let q : C.close_client s ≡ (t, ok tt) = ap (λ r. (t, r)) done in
        let e : close_proxy C s ≡ C.close_session t = ap (session_closed C) q in
        (
          ap (λ r. r.1) e ∙ done',
          ap (λ r. remote r.0) e ∙ same' ∙ same,
          ap (λ r. stage r.0) e ∙ at',
        )

    -- The second time, which ends with an error.
    close_proxy_again :
        (s : C.State)
        → stage s ≡ no_session
        → (remote (close_proxy C s).0 ≡ remote s) × (stage (close_proxy C s).0 ≡ no_session)
    unfolding close_proxy
    close_proxy_again s h =
        let t = (C.close_client s).0 in
        let ((x, failed), same, at) = L.close_client_again s h in
        let (done', same', at') = L.close_session_again t at in
        let q : C.close_client s ≡ (t, err x) = ap (λ r. (t, r)) failed in
        let e : close_proxy C s ≡ ((C.close_session t).0, err x) = ap (session_closed C) q in
        (ap (λ r. remote r.0) e ∙ same' ∙ same, ap (λ r. stage r.0) e ∙ at')

    and_close_proxy-Answers :
        {A : Type 0} (m : Command C.State A) (handler : Command W A)
        → Answers remote stage m handler ready (λ t. (t ≡ ready) ⊎ (t ≡ no_session))
        → Answers remote stage (and_close_proxy C m) handler ready (λ t. t ≡ no_session)
    unfolding and_close_proxy
    and_close_proxy-Answers m handler h s at =
        let (result, world, after) = h s at in
        elim after [
          | inl still ↦
              let (done, same, ended) = close_proxy-Moves (m s).0 still in
              (result, same ∙ world, ended)
          | inr over ↦
              let (same, ended) = close_proxy_again (m s).0 over in (result, same ∙ world, ended)
        ]

    -- The whole of an operation, from no session to no session.
    within-Answers :
        {A : Type 0} (m : Command C.State A) (handler : Command W A)
        → Answers remote stage m handler ready (λ t. (t ≡ ready) ⊎ (t ≡ no_session))
        → Answers remote stage
            (open_proxy C command >> and_close_proxy C m)
            handler
            no_session
            (λ t. t ≡ no_session)
    within-Answers m handler h =
        then-Answers remote stage (open_proxy C command) (and_close_proxy C m) handler no_session
          ready (λ t. t ≡ no_session) open_proxy-Moves (and_close_proxy-Answers m handler h)

    module _ {A : Type 0} (m : Command C.State A) (handler : Command W A)
        (h : Answers remote stage m handler ready (λ t. t ≡ ready)) where
      deferred-Answers :
          Answers remote stage
            (open_proxy C command >> and_close_proxy C m)
            handler
            no_session
            (λ t. t ≡ no_session)
      deferred-Answers =
          within-Answers m handler
            (λ s at. let (result, world, after) = h s at in (result, world, inl after))

      closed-Answers :
          Answers remote stage
            (open_proxy C command >> and_close_proxy C (m >>= λ a. close_proxy C >> pure a))
            handler
            no_session
            (λ t. t ≡ no_session)
      closed-Answers = within-Answers (m >>= λ a. close_proxy C >> pure a) handler (
          keep-Answers remote stage m (close_proxy C) handler ready ready no_session h
            close_proxy-Moves)

    -- Where the connection carries the calls, and no session is open, a proxy destination lists and removes what the
    -- destination does that the other side makes from the options handed on, with its errors, and leaves no session
    -- open.
    pub destination-Answers :
        Answers remote stage
          (list_backups C command o)
          (serve_list_backups with_destination (proxied_options o))
          no_session
          (λ t. t ≡ no_session)
        × ((b : Backup)
            → Answers remote stage
                (remove_backup C command o b)
                (serve_remove_backup with_destination (proxied_options o) b)
                no_session
                (λ t. t ≡ no_session))
    unfolding list_backups remove_backup
    destination-Answers = (
      closed-Answers _ (serve_list_backups with_destination (proxied_options o))
          (L.call_list_backups-Answers (proxied_options o)),
      λ b.
          deferred-Answers _ (serve_remove_backup with_destination (proxied_options o) b)
            (L.call_remove_backup-Answers (proxied_options o) b),
    )

    -- Where the connection carries the calls, and no session is open, a proxy source lists and removes the archives
    -- and bookmarks that the source does that the other side makes from the options handed on, with its errors, and
    -- leaves no session open.
    pub source-Answers :
        (Answers remote stage
            (list_snapshots C command o (codes "Archives"))
            (serve_list_archives with_source (proxied_options o))
            no_session
            (λ t. t ≡ no_session)
          × Answers remote stage
              (list_snapshots C command o (codes "Bookmarks"))
              (serve_list_bookmarks with_source (proxied_options o))
              no_session
              (λ t. t ≡ no_session))
        × ((k : Snapshot)
            → Answers remote stage
                (remove_snapshot C command o (codes "Archive") k)
                (serve_remove_archive with_source (proxied_options o) k)
                no_session
                (λ t. t ≡ no_session)
              × Answers remote stage
                  (remove_snapshot C command o (codes "Bookmark") k)
                  (serve_remove_bookmark with_source (proxied_options o) k)
                  no_session
                  (λ t. t ≡ no_session))
    unfolding list_snapshots remove_snapshot
    source-Answers = (
      (
        closed-Answers _ (serve_list_archives with_source (proxied_options o))
            (L.call_list_archives-Answers (proxied_options o)),
        closed-Answers _ (serve_list_bookmarks with_source (proxied_options o))
            (L.call_list_bookmarks-Answers (proxied_options o)),
      ),
      λ k. (
        deferred-Answers _ (serve_remove_archive with_source (proxied_options o) k)
            (L.call_remove_archive-Answers (proxied_options o) k),
        deferred-Answers _ (serve_remove_bookmark with_source (proxied_options o) k)
            (L.call_remove_bookmark-Answers (proxied_options o) k),
      ),
    )
