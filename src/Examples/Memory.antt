-- ===== src/Examples/Memory.antt =====
-- A source and a destination that are lists in memory.
use uback.Base.{
  ◌≡◌, refl, true, false, not, Option, none, some, List, Result, err, Error, [], ◌∷◌, equal,
  equal_iff, member, filter, ok, arith, Bool-cases, inl, inr,
}
use uback.Snapshot.{Snapshot, Backup}
use uback.Interfaces.{Stream, Source, Destination, KeepsOthers}
use uback.Examples.Data.{day_three}

abbrev pub without : Snapshot → List Snapshot → List Snapshot
without k l = filter (λ s. not (equal s k)) l

pub record Lists : Type 0 where
  pub archives : List Snapshot
  pub bookmarks : List Snapshot

abbrev pub empty_stream : Stream
empty_stream = record { content = []; failure = none }

-- A backup is made on the third day, and leaves an archive.
abbrev pub memory_source : Source
memory_source = record {
  State = Lists;
  list_archives = λ s. ok s.archives;
  remove_archive = λ k s. (record s { archives = without k s.archives }, ok tt);
  list_bookmarks = λ s. ok s.bookmarks;
  remove_bookmark = λ k s. (record s { bookmarks = without k s.bookmarks }, ok tt);
  create_backup = λ base s. (
    record s { archives = day_three ∷ s.archives },
    ok (record { snapshot = day_three; base_snapshot = base }, empty_stream),
  );
  restore_backup = λ dir b stream s. (s, ok tt);
}

-- Nothing is kept of data that ends with an error.
abbrev sent : Backup → List Backup → Option Error → List Backup × Result (Unit {0})
sent b s none = (b ∷ s, ok tt)
sent b s (some e) = (s, err e)

abbrev pub memory_destination : Destination
memory_destination = record {
  State = List Backup;
  list_backups = λ s. ok s;
  remove_backup = λ b s. (filter (λ c. not (equal c.snapshot b.snapshot)) s, ok tt);
  send_backup = λ b stream s. sent b s stream.failure;
  receive_backup = λ b s. ok empty_stream;
}

pub member-without :
    (l : List Snapshot) (a k : Snapshot)
    → equal k a ≡ false
    → member k l ≡ true
    → member k (without a l) ≡ true
unfolding member filter
member-without [] a k other h = h
member-without (x ∷ l) a k other h = elim (Bool-cases (equal x a)) [
  | inl e ↦ ground (arith, member-without l a k other, equal_iff x a, equal_iff k x)
  | inr e ↦ ground (arith, member-without l a k other)
]

abbrev pub memory_source-KeepsOthers : KeepsOthers memory_source
memory_source-KeepsOthers = record {
  archives = λ s. s.archives;
  bookmarks = λ s. s.bookmarks;
  list_archives-archives = λ s. refl;
  list_bookmarks-bookmarks = λ s. refl;
  archives-remove_archive = λ s a k other h. member-without s.archives a k other h;
  bookmarks-remove_archive = λ s a k h. h;
  archives-remove_bookmark = λ s a k h. h;
  bookmarks-remove_bookmark = λ s a k other h. member-without s.bookmarks a k other h;
}
