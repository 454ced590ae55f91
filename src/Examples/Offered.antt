-- ===== src/Examples/Offered.antt =====
-- What the list offers for editing, at the small board with a thread.
use tdiscuss.Base.{◌≡◌, refl, arith, false, none, some, pos}
use tdiscuss.Text.{codes}
use tdiscuss.Store.Tables.{Member, Thread, Db, find, member_by_id, thread_by_id}
use tdiscuss.Store.Threads.{thread_matches}
use tdiscuss.Store.Reads.{threads_row}
use tdiscuss.Store.Offered.{threads_row-can_edit}
use tdiscuss.Consistency.{Consistent, count_in}
use tdiscuss.Examples.{ann}
use tdiscuss.Examples.Handled.{soon_db}

-- The board with Ann's thread, ten minutes after it was made.
abbrev kept_db : Db
kept_db = record soon_db { board = none; next_thread = 2; next_post = 2 }

kept-Consistent : Consistent kept_db
unfolding find count_in
kept-Consistent = record {
  members = (1, refl, omega arith, omega arith, tt);
  threads = (1, refl, omega arith, omega arith, tt);
  posts = (1, refl, omega arith, omega arith, tt);
  parents = ((1, refl, omega arith), tt);
  addresses = (tt, tt);
  profiles = refl;
  owners = (refl, tt);
  authors = (refl, tt);
  counted = (refl, tt);
  totals = tt;
}

abbrev ann_row : Member
ann_row = record {
  id = pos 1;
  email = codes "ann@example.org";
  is_admin = false;
  is_blocked = false;
}

abbrev first_thread : Thread
first_thread = record {
  id = pos 1;
  member_id = pos 1;
  subject = codes "Hello";
  date_posted = 1000;
  first_post_id = some (pos 1);
  posts = 1;
  views = 0;
  sticky = false;
  locked = false;
  last_member_id = pos 1;
  date_last_posted = 1000;
}

ann-found : member_by_id ann.id kept_db ≡ some ann_row
unfolding member_by_id
ann-found = refl

thread-found : thread_by_id (pos 1) kept_db ≡ some first_thread
unfolding thread_by_id
thread-found = refl

threads_row-can_edit_example :
    (threads_row ann.email kept_db first_thread).can_edit
    ≡ thread_matches kept_db.now
        (record { subject = codes "Bye"; id = pos 1; member_id = ann.id })
        first_thread
threads_row-can_edit_example =
    threads_row-can_edit ann ann_row (pos 1) first_thread (codes "Bye") kept_db kept-Consistent
      ann-found refl thread-found
