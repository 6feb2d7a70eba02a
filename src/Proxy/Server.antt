-- ===== src/Proxy/Server.antt =====
-- cmd/proxy.go: the handlers behind the calls. `with_destination` and `with_source` are those of the options
-- builder, for the options that a call carries.
use uback.Base.{Bool, true, false, Option, none, some, List, [], Bytes, Result, ok, err, Error}
use uback.Base.Commands.{Command, ◌>>=◌}
use uback.Snapshot.{Snapshot, Backup}
use uback.Interfaces.{Stream}
use uback.Interfaces.Acting.{ActingDestination, ActingSource}
use uback.Options.{Options}

-- What a handler writes into the data stream, and whether it calls `Close` on it.
pub record Written : Type 0 where
  pub content : Bytes
  pub closed : Bool

abbrev pub unwritten : Written
unwritten = record { content = []; closed = false }

-- What `Close` gives of a reader that was read to its end, and of the data stream.
pub record Closes : Type 0 where
  pub close_reader : Stream → Result (Unit {0})
  pub close_data : Result (Unit {0})

-- `io.Copy` into the data stream, the closing of the reader, and that of the data stream, up to the first error.
unfoldable pub copy_out : Closes → Stream → Result (Unit {0}) × Written
copy_out K stream = elim stream.failure [
  | some e ↦ (err e, record { content = stream.content; closed = false })
  | none ↦ elim (K.close_reader stream) [
    | err e ↦ (err e, record { content = stream.content; closed = false })
    | ok done ↦ (K.close_data, record { content = stream.content; closed = true })
  ]
]

module _ {W : Type 0} (with_destination : Options → Command W (ActingDestination W)) where
  unfoldable pub serve_list_backups : Options → Command W (List Backup)
  serve_list_backups o = with_destination o >>= λ d. d.list_backups

  unfoldable pub serve_remove_backup : Options → Backup → Command W (Unit {0})
  serve_remove_backup o b = with_destination o >>= λ d. d.remove_backup b

  abbrev pub and_close : Closes → W × Result (Unit {0}) → (W × Result (Unit {0})) × Written
  and_close K (w, ok done) = ((w, K.close_data), record { content = []; closed = true })
  and_close K (w, err e) = ((w, err e), unwritten)

  unfoldable pub serve_send_backup :
      Closes → Options → Backup → Stream → W → (W × Result (Unit {0})) × Written
  serve_send_backup K o b incoming w =
      and_close K ((with_destination o >>= λ d. d.send_backup b incoming) w)

  abbrev pub copied : Closes → W × Result Stream → (W × Result (Unit {0})) × Written
  copied K (w, ok stream) = let (r, written) = copy_out K stream in ((w, r), written)
  copied K (w, err e) = ((w, err e), unwritten)

  unfoldable pub serve_receive_backup :
      Closes → Options → Backup → W → (W × Result (Unit {0})) × Written
  unfolding copy_out
  serve_receive_backup K o b w = copied K ((with_destination o >>= λ d. d.receive_backup b) w)

-- `Source`: the backup that is created waits to be transmitted.
pub record Serving (W : Type 0) : Type 0 where
  pub world : W
  pub backup : Option Stream

module _ {W : Type 0} (with_source : Options → Command W (ActingSource W)) where
  unfoldable pub serve_list_archives : Options → Command W (List Snapshot)
  serve_list_archives o = with_source o >>= λ s. s.list_archives

  unfoldable pub serve_list_bookmarks : Options → Command W (List Snapshot)
  serve_list_bookmarks o = with_source o >>= λ s. s.list_bookmarks

  unfoldable pub serve_remove_archive : Options → Snapshot → Command W (Unit {0})
  serve_remove_archive o k = with_source o >>= λ s. s.remove_archive k

  unfoldable pub serve_remove_bookmark : Options → Snapshot → Command W (Unit {0})
  serve_remove_bookmark o k = with_source o >>= λ s. s.remove_bookmark k

  abbrev pub holding : W × Result (Backup × Stream) → Serving W × Result Backup
  holding (w, ok (b, stream)) = (record { world = w; backup = some stream }, ok b)
  holding (w, err e) = (record { world = w; backup = none }, err e)

  abbrev pub created :
      Option Snapshot → Option Stream → W × Result (ActingSource W) → Serving W × Result Backup
  created base held (w, ok s) = holding (s.create_backup base w)
  created base held (w, err e) = (record { world = w; backup = held }, err e)

  unfoldable pub serve_create_backup : Options → Option Snapshot → Command (Serving W) Backup
  serve_create_backup o base s = created base s.backup (with_source o s.world)

-- With no backup created the copy panics.
unfoldable pub serve_transmit_backup :
    {W : Type 0} → Closes → Serving W → Result (Unit {0}) × Written
unfolding copy_out
serve_transmit_backup K s = elim s.backup [
  | none ↦ (err Error.panic, unwritten)
  | some stream ↦ copy_out K stream
]
