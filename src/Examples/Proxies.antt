-- ===== src/Examples/Proxies.antt =====
-- A proxy whose other side is in the same memory.
use uback.Base.{
  ◌≡◌, refl, if◌then◌else◌, some, List, [], ◌∷◌, Bytes, codes, Result, ok, err, Error, equal,
  filter, not,
}
use uback.Base.Commands.{Command}
use uback.Snapshot.{Snapshot, Backup}
use uback.Interfaces.{Stream}
use uback.Interfaces.Acting.{ActingDestination, ActingSource}
use uback.Options.{Options}
use uback.Proxy.{proxied_options}
use uback.Proxy.Client.{Connection, list_backups, remove_backup, list_snapshots, remove_snapshot}
use uback.Proxy.Server.{
  serve_list_backups, serve_remove_backup, serve_list_archives, serve_list_bookmarks,
  serve_remove_archive, serve_remove_bookmark,
}
use uback.Proxy.Stages.{Stage, no_session, started, connected, half_open, ready, shut, Answers}
use uback.Proxy.Remote.{Carries, destination-Answers, source-Answers}
use uback.Examples.Data.{next_two}
use uback.Examples.Memory.{Lists, empty_stream, without}

pub record Store : Type 0 where
  pub backups : List Backup
  pub source : Lists

-- A backup is received only if it is there.
abbrev received : List Backup → Result Stream
received [] = err (Error.external 2)
received (b ∷ bs) = ok empty_stream

abbrev store_destination : Options → Command Store (ActingDestination Store)
store_destination o s = (
  s,
  ok (record {
    list_backups = λ s. (s, ok s.backups);
    remove_backup = λ b s.
        (record s { backups = filter (λ c. not (equal c.snapshot b.snapshot)) s.backups }, ok tt);
    send_backup = λ b stream s. (record s { backups = b ∷ s.backups }, ok tt);
    receive_backup = λ b s. (s, received s.backups);
  }),
)

abbrev store_source : Options → Command Store (ActingSource Store)
store_source o s = (
  s,
  ok (record {
    list_archives = λ s. (s, ok s.source.archives);
    remove_archive = λ k s.
        (record s { source = record s.source { archives = without k s.source.archives } }, ok tt);
    list_bookmarks = λ s. (s, ok s.source.bookmarks);
    remove_bookmark = λ k s.
        (record s { source = record s.source { bookmarks = without k s.source.bookmarks } }, ok tt);
    create_backup = λ base s. (s, ok (next_two, empty_stream));
  }),
)

-- The other side's world, with the stage of the session.
abbrev Line : Type 0
Line = Store × Stage

abbrev started_process : Command Line (Unit {0})
started_process (w, st) = ((w, started), ok tt)

abbrev opened_session : Command Line (Unit {0})
opened_session (w, started) = ((w, connected), ok tt)
opened_session (w, st) = ((w, st), err (Error.external 3))

abbrev opened_stream : Command Line (Unit {0})
opened_stream (w, connected) = ((w, half_open), ok tt)
opened_stream (w, half_open) = ((w, ready), ok tt)
opened_stream (w, st) = ((w, st), err (Error.external 3))

abbrev closed_client : Command Line (Unit {0})
closed_client (w, ready) = ((w, shut), ok tt)
closed_client (w, st) = ((w, st), err (Error.external 4))

abbrev closed_session : Command Line (Unit {0})
closed_session (w, st) = ((w, no_session), ok tt)

-- A call is answered while the session is ready.
abbrev answered : {A : Type 0} → Command Store A → Command Line A
answered handler (w, ready) = (((handler w).0, ready), (handler w).1)
answered handler (w, st) = ((w, st), err (Error.external 4))

-- The plural, then the singular, of the two kinds of snapshots.
abbrev listed : Bytes → Options → Command Store (List Snapshot)
listed kind o =
    if equal kind (codes "Archives")
    then serve_list_archives store_source o
    else serve_list_bookmarks store_source o

abbrev removed : Bytes → Options → Snapshot → Command Store (Unit {0})
removed kind o k =
    if equal kind (codes "Archive")
    then serve_remove_archive store_source o k
    else serve_remove_bookmark store_source o k

abbrev loopback : Connection
loopback = record {
  State = Line;
  start_process = λ command. started_process;
  open_session = opened_session;
  open_stream = opened_stream;
  close_client = closed_client;
  close_session = closed_session;
  call_list_backups = λ o. answered (serve_list_backups store_destination o);
  call_remove_backup = λ o b. answered (serve_remove_backup store_destination o b);
  call_list_snapshots = λ kind o. answered (listed kind o);
  call_remove_snapshot = λ kind o k. answered (removed kind o k);
  call_create_backup = λ o base s. (s, ok next_two);
  start_send_backup = λ o b s. s;
  start_receive_backup = λ o b s. s;
  start_transmit_backup = λ s. s;
  write = λ stream s. (s, ok tt);
  read = λ s. (s, some empty_stream);
  close_stream = λ s. (s, ok tt);
  wait = λ s. (s, ok tt);
}

answered-Answers :
    {A : Type 0} (handler : Command Store A)
    → Answers (λ s. s.0) (λ s. s.1) (answered handler) handler ready (λ t. t ≡ ready)
answered-Answers handler (w, st) q = rw q (refl, refl, refl)

loopback-Carries : Carries loopback (λ s. s.0) (λ s. s.1) store_destination store_source
unfolding equal
loopback-Carries = record {
  start_process-Moves = λ command (w, st) q. (refl, refl, refl);
  open_session-Moves = λ (w, st) q. rw q (refl, refl, refl);
  open_stream_calls = λ (w, st) q. rw q (refl, refl, refl);
  open_stream_data = λ (w, st) q. rw q (refl, refl, refl);
  close_client-Moves = λ (w, st) q. rw q (refl, refl, refl);
  close_client_again = λ (w, st) q. rw q ((Error.external 4, refl), refl, refl);
  close_session-Moves = λ (w, st) q. (refl, refl, refl);
  close_session_again = λ (w, st) q. (refl, refl, refl);
  call_list_backups-Answers = λ o. answered-Answers (serve_list_backups store_destination o);
  call_remove_backup-Answers = λ o b. answered-Answers (serve_remove_backup store_destination o b);
  call_list_archives-Answers = λ o. answered-Answers (serve_list_archives store_source o);
  call_list_bookmarks-Answers = λ o. answered-Answers (serve_list_bookmarks store_source o);
  call_remove_archive-Answers = λ o k. answered-Answers (serve_remove_archive store_source o k);
  call_remove_bookmark-Answers = λ o k. answered-Answers (serve_remove_bookmark store_source o k);
}

abbrev proxy_options : Options
proxy_options = record { strings = (codes "ProxyPath", codes "d") ∷ []; slices = [] }

abbrev ssh : List Bytes
ssh = codes "ssh" ∷ codes "host" ∷ codes "uback" ∷ codes "proxy" ∷ []

destination-Answers_example :
    Answers
      (λ s. s.0)
      (λ s. s.1)
      (list_backups loopback ssh proxy_options)
      (serve_list_backups store_destination (proxied_options proxy_options))
      no_session
      (λ t. t ≡ no_session)
    × ((b : Backup)
        → Answers
            (λ s. s.0)
            (λ s. s.1)
            (remove_backup loopback ssh proxy_options b)
            (serve_remove_backup store_destination (proxied_options proxy_options) b)
            no_session
            (λ t. t ≡ no_session))
destination-Answers_example =
    destination-Answers loopback (λ s. s.0) (λ s. s.1) store_destination store_source
      loopback-Carries ssh proxy_options

source-Answers_example :
    (Answers
        (λ s. s.0)
        (λ s. s.1)
        (list_snapshots loopback ssh proxy_options (codes "Archives"))
        (serve_list_archives store_source (proxied_options proxy_options))
        no_session
        (λ t. t ≡ no_session)
      × Answers
          (λ s. s.0)
          (λ s. s.1)
          (list_snapshots loopback ssh proxy_options (codes "Bookmarks"))
          (serve_list_bookmarks store_source (proxied_options proxy_options))
          no_session
          (λ t. t ≡ no_session))
    × ((k : Snapshot)
        → Answers
            (λ s. s.0)
            (λ s. s.1)
            (remove_snapshot loopback ssh proxy_options (codes "Archive") k)
            (serve_remove_archive store_source (proxied_options proxy_options) k)
            no_session
            (λ t. t ≡ no_session)
          × Answers
              (λ s. s.0)
              (λ s. s.1)
              (remove_snapshot loopback ssh proxy_options (codes "Bookmark") k)
              (serve_remove_bookmark store_source (proxied_options proxy_options) k)
              no_session
              (λ t. t ≡ no_session))
source-Answers_example =
    source-Answers loopback (λ s. s.0) (λ s. s.1) store_destination store_source loopback-Carries
      ssh proxy_options
