-- ===== src/Consistency/Changes.antt =====
-- The statements that change rows keep the tables consistent.
use tdiscuss.Base.{
  ℕ, ◌≡◌, refl, Bool, true, List, [], ◌∷◌, Option, none, some, ℤ, eq_ℤ, length, arith, sym, ◌∙◌,
}
use mathlib.Core.Path.{subst}
use tdiscuss.Text.{Text}
use tdiscuss.Store.Tables.{
  Member, Profile, Post, Board, Db, call, exec, update_where, map_board, find,
}
use tdiscuss.Store.Members.{
  block, block_member, UpdateMemberProfileParams, profile_update, update_member_profile_by_id,
  change_board, set_title, set_window, title_allowed, update_board_title, update_board_edit_window,
}
use tdiscuss.Store.Threads.{
  UpdateThreadParams, UpdateThreadPostParams, set_subject, set_body, subject_allowed, write_subject,
  write_body, thread_matches, post_matches, update_thread, update_thread_post,
}
use tdiscuss.Web.Keeps.{KeepsQuery, Keeps-exec}
use tdiscuss.Consistency.{
  Ascending, IsTaken, IsMember, Apart, count_in, IsCounted, Totals, Advances,
}
use tdiscuss.Consistency.Counts.{map-update_where, length-update_where, All-update_where, All-map}
use tdiscuss.Consistency.Sequences.{Advances-faults, standing}

-- Who is blocked is still a member.
IsMember-block :
    (id j : ℤ) (ms : List Member)
    → IsMember ms j
    → IsMember (update_where (λ m. eq_ℤ m.id id) block ms) j
unfolding find update_where
IsMember-block id j [] h = h
IsMember-block id j (m ∷ ms) h = ground (arith, IsMember-block id j ms)

pub block_member-Advances : (id : ℤ) → KeepsQuery Advances (block_member id)
unfolding block_member
block_member-Advances id =
    let p = λ (m : Member). eq_ℤ m.id id in
    let change = λ (db : Db). record db { members = update_where p block db.members } in
    Keeps-exec Advances-faults (λ db. true) change
      λ db _. standing db (change db) refl refl refl λ c. record {
        members =
            subst (Ascending 0 db.next_member)
              (sym (map-update_where p block (λ m. m.id) (λ m. refl) db.members)) c.members;
        threads = c.threads;
        posts = c.posts;
        parents = c.parents;
        addresses =
            subst Apart (sym (map-update_where p block (λ m. m.email) (λ m. refl) db.members))
              c.addresses;
        profiles = c.profiles ∙ sym (map-update_where p block (λ m. m.id) (λ m. refl) db.members);
        owners = All-map _ _ (λ t. IsMember-block id t.member_id db.members) db.threads c.owners;
        authors = All-map _ _ (λ q. IsMember-block id q.member_id db.members) db.posts c.authors;
        counted = c.counted;
        totals =
            subst (λ n. Totals db.board n (length db.threads) (length db.posts))
              (sym (length-update_where p block db.members)) c.totals;
      }

pub update_member_profile-Advances :
    (arg : UpdateMemberProfileParams) → KeepsQuery Advances (update_member_profile_by_id arg)
unfolding update_member_profile_by_id
update_member_profile-Advances arg =
    let p = λ (q : Profile). eq_ℤ q.member_id arg.member_id in
    let change =
      λ (db : Db). record db { profiles = update_where p (profile_update arg) db.profiles } in
    Keeps-exec Advances-faults (λ db. true) change
      λ db _. standing db (change db) refl refl refl λ c. record {
        members = c.members;
        threads = c.threads;
        posts = c.posts;
        parents = c.parents;
        addresses = c.addresses;
        profiles =
            map-update_where p (profile_update arg) (λ q. q.member_id) (λ q. refl) db.profiles
            ∙ c.profiles;
        owners = c.owners;
        authors = c.authors;
        counted = c.counted;
        totals = c.totals;
      }

-- A change of the board that leaves the counters alone.
Totals-map :
    (f : Board → Board)
    → ((b : Board)
        → (f b).total_members ≡ b.total_members
          × ((f b).total_threads ≡ b.total_threads)
          × ((f b).total_thread_posts ≡ b.total_thread_posts))
    → (b : Option Board) (m t p : ℕ) → Totals b m t p
    → Totals (map_board f b) m t p
Totals-map f same none m t p h = tt
Totals-map f same (some b) m t p h = let s = same b in (s.0 ∙ h.0, s.1 ∙ h.1, s.2 ∙ h.2)

board-Advances :
    (allowed : Db → Bool) (f : Board → Board)
    → ((b : Board)
        → (f b).total_members ≡ b.total_members
          × ((f b).total_threads ≡ b.total_threads)
          × ((f b).total_thread_posts ≡ b.total_thread_posts))
    → KeepsQuery Advances (call (exec allowed (change_board f)))
board-Advances allowed f same = Keeps-exec Advances-faults allowed (change_board f) λ db _.
    standing db (change_board f db) refl refl refl λ c. record {
      members = c.members;
      threads = c.threads;
      posts = c.posts;
      parents = c.parents;
      addresses = c.addresses;
      profiles = c.profiles;
      owners = c.owners;
      authors = c.authors;
      counted = c.counted;
      totals = Totals-map f same db.board _ _ _ c.totals;
    }

pub update_board_title-Advances : (title : Text) → KeepsQuery Advances (update_board_title title)
unfolding update_board_title
update_board_title-Advances title =
    board-Advances (title_allowed title) (set_title title) λ b. (refl, refl, refl)

pub update_board_edit_window-Advances :
    (window : Option ℤ) → KeepsQuery Advances (update_board_edit_window window)
unfolding update_board_edit_window
update_board_edit_window-Advances window =
    board-Advances (λ db. true) (set_window window) λ b. (refl, refl, refl)

pub update_thread-Advances : (arg : UpdateThreadParams) → KeepsQuery Advances (update_thread arg)
unfolding update_thread
update_thread-Advances arg =
    Keeps-exec Advances-faults (subject_allowed arg) (write_subject arg) λ db _.
      standing db (write_subject arg db) refl refl refl λ c.
        let p = thread_matches db.now arg in
        let f = set_subject arg.subject in
        record {
          members = c.members;
          threads =
              subst (Ascending 0 db.next_thread)
                (sym (map-update_where p f (λ t. t.id) (λ t. refl) db.threads)) c.threads;
          posts = c.posts;
          parents = c.parents;
          addresses = c.addresses;
          profiles = c.profiles;
          owners =
              All-update_where p f _ (λ t. IsMember db.members t.member_id) (λ t _ h. h)
                (λ t _ h. h) db.threads c.owners;
          authors = c.authors;
          counted =
              All-update_where p f (IsCounted db.posts) (IsCounted db.posts) (λ t _ h. h)
                (λ t _ h. h) db.threads c.counted;
          totals =
              subst (λ n. Totals db.board (length db.members) n (length db.posts))
                (sym (length-update_where p f db.threads)) c.totals;
        }

count_in-write_body :
    (p : Post → Bool) (body : Option Text) (tid : ℤ) (ps : List Post)
    → count_in tid (update_where p (set_body body) ps) ≡ count_in tid ps
unfolding count_in update_where
count_in-write_body p body tid [] = refl
count_in-write_body p body tid (q ∷ ps) = ground (arith, count_in-write_body p body tid ps)

pub update_thread_post-Advances :
    (arg : UpdateThreadPostParams) → KeepsQuery Advances (update_thread_post arg)
unfolding update_thread_post
update_thread_post-Advances arg =
    Keeps-exec Advances-faults (λ db. true) (write_body arg)
      λ db _. standing db (write_body arg db) refl refl refl λ c.
        let p = post_matches db.now arg in
        let f = set_body arg.body in
        record {
          members = c.members;
          threads = c.threads;
          posts =
              subst (Ascending 0 db.next_post)
                (sym (map-update_where p f (λ q. q.id) (λ q. refl) db.posts)) c.posts;
          parents =
              All-update_where p f _ (λ q. IsTaken db.next_thread q.thread_id) (λ q _ h. h)
                (λ q _ h. h) db.posts c.parents;
          addresses = c.addresses;
          profiles = c.profiles;
          owners = c.owners;
          authors =
              All-update_where p f _ (λ q. IsMember db.members q.member_id) (λ q _ h. h)
                (λ q _ h. h) db.posts c.authors;
          counted =
              All-map (IsCounted db.posts) _
                (λ t h. h ∙ sym (count_in-write_body p arg.body t.id db.posts)) db.threads
                c.counted;
          totals =
              subst (Totals db.board (length db.members) (length db.threads))
                (sym (length-update_where p f db.posts)) c.totals;
        }
